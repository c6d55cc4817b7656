-- ===== src/Audit/Sink/Trail.antt =====
-- The log of src/audit.rs over any number of records, against a list to which a record is added.
use nono_cedar_pdp.Base.{
  ℕ, ◌≡◌, refl, sym, ap, ◌∙◌, subst, ◌⊎◌, inl, inr, true, false, Option, none, some, Option-cases,
  List, [], ◌∷◌, ◌++◌, append-nil, append_assoc, All, arith, Bytes, contains,
}
use nono_cedar_pdp.Audit.LogFile.{ends_mid_line}
use nono_cedar_pdp.Audit.Sink.{Sink, attached, Answers, reattach, write, append}
use nono_cedar_pdp.Audit.Sink.Recovery.{rolled_back, written, buffer-ends}
use nono_cedar_pdp.Audit.Sink.Lines.{read_lines, closed, read_lines-open, append-lines}

-- Records handed to `append`, one after the other, each with what the system answers.
unfoldable pub append_all : List (Answers × Bytes) → Sink → Sink
append_all [] s = s
append_all ((a, line) ∷ rest) s = append_all rest (append a line s)

-- The records whose write succeeded.
abbrev pub onto_written : Option ℕ → Bytes → List Bytes → List Bytes
onto_written none line lines = line ∷ lines
onto_written (some k) line lines = lines

unfoldable pub successes : List (Answers × Bytes) → List Bytes
successes [] = []
successes ((a, line) ∷ rest) = onto_written a.write_fails line (successes rest)

-- A record without a newline inside, on a file that still stands at its path, whose write succeeds
-- or can be rolled back.
pub record IsRecoverable (e : Answers × Bytes) : Type 0 where
  pub one_line : contains b'\n' e.1 ≡ false
  pub readable : e.0.at_path.opens_read ≡ true
  pub there : e.0.attachment ≡ attached
  pub write : (e.0.write_fails ≡ none) ⊎ ((e.0.size_known ≡ true) × (e.0.truncates ≡ true))

-- A sink that holds whole lines only.
abbrev pub IsWhole : Sink → Type 0
IsWhole s = (s.unterminated ≡ false) × (ends_mid_line s.file.contents ≡ false)

append-unterminated :
    (a : Answers) (line : Bytes) (s : Sink)
    → a.write_fails ≡ none
    → (append a line s).unterminated ≡ false
unfolding append write
append-unterminated a line s h = ground arith

reattach_attached :
    (a : Answers) (s : Sink) → a.attachment ≡ attached → reattach a.attachment a.at_path s ≡ s
unfolding reattach
reattach_attached a s h = rw h refl

append-IsWhole_written :
    (a : Answers) (line : Bytes) (s : Sink)
    → a.attachment ≡ attached
    → a.write_fails ≡ none
    → IsWhole (append a line s)
append-IsWhole_written a line s t w = (
  append-unterminated a line s w,
  subst (λ b. ends_mid_line b ≡ false) (sym (written a line s t w))
      (buffer-ends s.unterminated line s.file.contents),
)

written_lines :
    (a : Answers) (line : Bytes) (s : Sink)
    → IsRecoverable (a, line)
    → IsWhole s
    → a.write_fails ≡ none
    → (read_lines (append a line s).file.contents).0 ≡ (read_lines s.file.contents).0 ++ line ∷ []
written_lines a line s r h w =
    let after : Sink = append a line s in
    let same = reattach_attached a s r.there in
    let q =
      subst
        (λ s1. read_lines after.file.contents ≡ (
          (read_lines s1.file.contents).0
              ++ (closed s1.unterminated (read_lines s1.file.contents).1 ++ line ∷ []),
          [],
        ))
        same (append-lines a line s r.one_line r.readable w (inr h.1)) in
    ap (λ x. x.0) q
    ∙ ap
        (λ u.
          (read_lines s.file.contents).0 ++ (closed u (read_lines s.file.contents).1 ++ line ∷ []))
        h.0

-- One record on whole lines.
append-one :
    (a : Answers) (line : Bytes) (s : Sink)
    → IsRecoverable (a, line)
    → IsWhole s
    → IsWhole (append a line s)
      × ((read_lines (append a line s).file.contents).0
          ≡ (read_lines s.file.contents).0 ++ onto_written a.write_fails line [])
append-one a line s r h = elim (Option-cases a.write_fails) [
  | inl w ↦ (
    append-IsWhole_written a line s r.there w,
    written_lines a line s r h w
        ∙ ap (λ o. (read_lines s.file.contents).0 ++ onto_written o line []) (sym w),
  )
  | inr (k, w) ↦ elim r.write [
    | inl e ↦ absurd (cc)
    | inr (z, t) ↦
        let (u, q) = rolled_back a line s k r.there z w t in
        (
          (u, subst (λ b. ends_mid_line b ≡ false) (sym q) h.1),
          ap (λ b. (read_lines b).0) q
              ∙ sym (append-nil (read_lines s.file.contents).0)
              ∙ ap (λ o. (read_lines s.file.contents).0 ++ onto_written o line []) (sym w),
        )
  ]
]

onto_append :
    (w : Option ℕ) (line : Bytes) (xs : List Bytes)
    → onto_written w line [] ++ xs ≡ onto_written w line xs
onto_append none line xs = refl
onto_append (some k) line xs = refl

-- The file refines a list of records: behind any sequence of records it reads back as the lines
-- that it had and, in order, those whose write succeeded, with no broken line; a record that failed
-- has left nothing. Each record is one line, each failed write could be rolled back, and the file
-- stays at its path and held whole lines only.
pub append_all-lines :
    (es : List (Answers × Bytes)) (s : Sink)
    → All IsRecoverable es
    → IsWhole s
    → read_lines (append_all es s).file.contents
      ≡ ((read_lines s.file.contents).0 ++ successes es, [])
unfolding append_all successes
append_all-lines [] s r h =
    λ i. (sym (append-nil (read_lines s.file.contents).0) i, read_lines-open s.file.contents h.1 i)
append_all-lines ((a, line) ∷ es) s r h =
    let (k, q) = append-one a line s r.0 h in
    append_all-lines es (append a line s) r.1 k
    ∙ ap (λ x. (x, []))
        (ap (λ x. x ++ successes es) q
          ∙ append_assoc (read_lines s.file.contents).0 (onto_written a.write_fails line [])
              (successes es)
          ∙ ap (λ x. (read_lines s.file.contents).0 ++ x)
              (onto_append a.write_fails line (successes es)))
