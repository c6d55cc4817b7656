-- ===== src/Audit/Sink/Lines.antt =====
-- The log of src/audit.rs as the lines that a reader gets of it.
use nono_cedar_pdp.Base.{
  ℕ, ◌≡◌, ◌≢◌, refl, sym, ap, ◌∙◌, inl, inr, Bool, true, false, Bool-cases, none, List, [], ◌∷◌,
  ◌++◌, arith, ◌==◌, if◌then◌else◌, Bytes, contains,
}
use nono_cedar_pdp.Audit.LogFile.{ends_mid_line}
use nono_cedar_pdp.Audit.Sink.{Sink, Answers, reattach, buffer, write, append}
use nono_cedar_pdp.Audit.Sink.Recovery.{IsHonest, reattach-IsHonest}

abbrev onto : ℕ → List Bytes × Bytes → List Bytes × Bytes
onto c ([], p) = ([], c ∷ p)
onto c (l ∷ ls, p) = ((c ∷ l) ∷ ls, p)

-- The lines that a newline ends, and what is left behind the last of them.
unfoldable pub read_lines : Bytes → List Bytes × Bytes
read_lines [] = ([], [])
read_lines (c ∷ cs) =
    let rest = read_lines cs in if c == b'\n' then ([] ∷ rest.0, rest.1) else onto c rest

onto-close :
    (c : ℕ) (r : List Bytes × Bytes) (ls : List Bytes) (p : Bytes)
    → onto c (r.0 ++ (r.1 ∷ ls), p) ≡ ((onto c r).0 ++ ((onto c r).1 ∷ ls), p)
onto-close c ([], q) ls p = refl
onto-close c (l ∷ ls', q) ls p = refl

-- Behind an open line, a newline closes it.
read_lines-close :
    (a b : Bytes)
    → read_lines (a ++ (b'\n' ∷ b))
      ≡ ((read_lines a).0 ++ ((read_lines a).1 ∷ (read_lines b).0), (read_lines b).1)
unfolding read_lines
read_lines-close [] b = refl
read_lines-close (c ∷ a) b = elim (Bool-cases (c == b'\n')) [
  | inl e ↦ rw e (rw (read_lines-close a b))
  | inr e ↦
      rw e
        (rw (read_lines-close a b) (onto-close c (read_lines a) (read_lines b).0 (read_lines b).1))
]

read_lines-line : (l : Bytes) → contains b'\n' l ≡ false → read_lines l ≡ ([], l)
unfolding read_lines contains
read_lines-line [] h = refl
read_lines-line (c ∷ l) h = ground (arith, read_lines-line l)

onto-open : (c : ℕ) (r : List Bytes × Bytes) → r.1 ≡ [] → r ≢ ([], []) → (onto c r).1 ≡ []
onto-open c ([], p) h n = absurd (n (λ i. ([], h i)))
onto-open c (l ∷ ls, p) h n = h

onto-ne : (c : ℕ) (r : List Bytes × Bytes) → onto c r ≢ ([], [])
onto-ne c ([], p) h = cc
onto-ne c (l ∷ ls, p) h = cc

read_lines_newline :
    (c : ℕ) (t : Bytes)
    → (c == b'\n') ≡ true
    → read_lines (c ∷ t) ≡ ([] ∷ (read_lines t).0, (read_lines t).1)
unfolding read_lines
read_lines_newline c t e = rw e refl

read_lines_other :
    (c : ℕ) (t : Bytes) → (c == b'\n') ≡ false → read_lines (c ∷ t) ≡ onto c (read_lines t)
unfolding read_lines
read_lines_other c t e = rw e refl

read_lines-ne : (c : ℕ) (t : Bytes) → read_lines (c ∷ t) ≢ ([], [])
unfolding read_lines
read_lines-ne c t h = elim (Bool-cases (c == b'\n')) [
  | inl e ↦ ground arith
  | inr e ↦ onto-ne c (read_lines t) (ground arith)
]

-- A file that does not end mid-record has no open line.
pub read_lines-open : (t : Bytes) → ends_mid_line t ≡ false → (read_lines t).1 ≡ []
unfolding ends_mid_line
read_lines-open [] h = unfold read_lines in refl
read_lines-open (c ∷ []) h = unfold read_lines in ground arith
read_lines-open (c ∷ d ∷ t) h =
    let rest = read_lines-open (d ∷ t) h in
    elim (Bool-cases (c == b'\n')) [
      | inl e ↦ ap (λ r. r.1) (read_lines_newline c (d ∷ t) e) ∙ rest
      | inr e ↦
          ap (λ r. r.1) (read_lines_other c (d ∷ t) e)
          ∙ onto-open c (read_lines (d ∷ t)) rest (read_lines-ne d t)
    ]

onto-eq_nil : (c : ℕ) (r : List Bytes × Bytes) → (onto c r).1 ≡ [] → r.1 ≡ []
onto-eq_nil c ([], p) h = absurd (cc)
onto-eq_nil c (l ∷ ls, p) h = h

onto-whole :
    (c : ℕ) (r : List Bytes × Bytes) (ls : List Bytes) (p : Bytes)
    → (onto c r).1 ≡ []
    → onto c (r.0 ++ ls, p) ≡ ((onto c r).0 ++ ls, p)
onto-whole c ([], q) ls p h = absurd (cc)
onto-whole c (l ∷ ls', q) ls p h = refl

-- Behind a whole line, the lines that follow are read for themselves.
read_lines-whole :
    (a b : Bytes)
    → (read_lines a).1 ≡ []
    → read_lines (a ++ b) ≡ ((read_lines a).0 ++ (read_lines b).0, (read_lines b).1)
read_lines-whole [] b h = unfold read_lines in refl
read_lines-whole (c ∷ a) b h = elim (Bool-cases (c == b'\n')) [
  | inl e ↦
      let k : (read_lines a).1 ≡ [] = ap (λ r. r.1) (sym (read_lines_newline c a e)) ∙ h in
      read_lines_newline c (a ++ b) e ∙ rw (read_lines_newline c a e) (rw (read_lines-whole a b k))
  | inr e ↦
      let k : (onto c (read_lines a)).1 ≡ [] = ap (λ r. r.1) (sym (read_lines_other c a e)) ∙ h in
      read_lines_other c (a ++ b) e
      ∙ rw (read_lines_other c a e) (
          rw (read_lines-whole a b (onto-eq_nil c (read_lines a) k))
            (onto-whole c (read_lines a) (read_lines b).0 (read_lines b).1 k))
]

-- What a reader gets of a record behind the file: an open line is closed first, and then the
-- record is a line of its own.
abbrev pub closed : Bool → Bytes → List Bytes
closed unterminated open_line = if unterminated then open_line ∷ [] else []

read_lines-record :
    (line : Bytes) → contains b'\n' line ≡ false → read_lines (line ++ b'\n' ∷ []) ≡ (line ∷ [], [])
read_lines-record line h =
    read_lines-close line [] ∙ rw (read_lines-line line h) (unfold read_lines in refl)

read_lines-buffer :
    (u : Bool) (t line : Bytes)
    → contains b'\n' line ≡ false
    → (u ≡ false → ends_mid_line t ≡ false)
    → read_lines (t ++ buffer u line)
      ≡ ((read_lines t).0 ++ (closed u (read_lines t).1 ++ line ∷ []), [])
unfolding buffer
read_lines-buffer true t line n h =
    read_lines-close t (line ++ b'\n' ∷ []) ∙ rw (read_lines-record line n)
read_lines-buffer false t line n h =
    read_lines-whole t (line ++ b'\n' ∷ []) (read_lines-open t (h refl))
    ∙ rw (read_lines-record line n)

append-written :
    (a : Answers) (line : Bytes) (s : Sink)
    → a.write_fails ≡ none
    → (append a line s).file.contents ≡ (
        let s1 = reattach a.attachment a.at_path s in
        s1.file.contents ++ buffer s1.unterminated line)
unfolding append write
append-written a line s h = ground arith

-- A record that is written is read back as one whole line behind all that was there, and a line
-- that an earlier failure left broken is closed in front of it and never fused with it. The
-- record has no newline inside, and the sink's flag is honest.
pub append-lines :
    (a : Answers) (line : Bytes) (s : Sink)
    → contains b'\n' line ≡ false
    → a.at_path.opens_read ≡ true
    → a.write_fails ≡ none
    → IsHonest s
    → (let s1 = reattach a.attachment a.at_path s in
        let before = read_lines s1.file.contents in
        read_lines (append a line s).file.contents
        ≡ (before.0 ++ (closed s1.unterminated before.1 ++ line ∷ []), []))
append-lines a line s n r w h =
    let s1 = reattach a.attachment a.at_path s in
    ap read_lines (append-written a line s w)
    ∙ read_lines-buffer s1.unterminated s1.file.contents line n (λ u.
      elim (reattach-IsHonest a.attachment a.at_path s r h) [ inl e ↦ absurd (cc) | inr e ↦ e ])
