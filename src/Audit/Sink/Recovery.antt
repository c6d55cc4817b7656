-- ===== src/Audit/Sink/Recovery.antt =====
-- What `append` of src/audit.rs does to the file on each way a write can go.
use nono_cedar_pdp.Base.{
  ℕ, ◌≡◌, refl, sym, ap, ◌∙◌, subst, ◌⊎◌, inl, inr, Bool, true, false, Option, none, some, [], ◌∷◌,
  ◌++◌, append-nil, append_assoc, arith, Bytes, length,
}
use nono_cedar_pdp.Audit.LogFile.{Found, ends_mid_line, open_log}
use nono_cedar_pdp.Audit.Sink.{
  Sink, Attachment, attached, other_file, not_found, cannot_tell, Answers, reopen, reattach, take,
  buffer, known, roll_back, write, append,
}

take-append : (a b : Bytes) → take (length a) (a ++ b) ≡ a
unfolding take
take-append [] b = refl
take-append (x ∷ a) b = ap (◌∷◌ x) (take-append a b)

write-prefix :
    (w : Option ℕ) (known_size truncates : Bool) (buf : Bytes) (s : Sink)
    → (rest : Bytes) × ((write w
          (known known_size (length s.file.contents))
          truncates
          buf
          s).file.contents
        ≡ s.file.contents ++ rest)
unfolding write roll_back
write-prefix none k t buf s = (buf, refl)
write-prefix (some n) false t buf s = (take n buf, refl)
write-prefix (some n) true false buf s = (take n buf, refl)
write-prefix (some n) true true buf s =
    ([], take-append s.file.contents (take n buf) ∙ sym (append-nil s.file.contents))

-- Whatever the write does, no byte that the file held before is lost: a failed record is rolled
-- back to just what was there, or stays behind it. The file is the one that the handle refers to
-- after the check that it still stands at its path.
pub append-prefix :
    (a : Answers) (line : Bytes) (s : Sink)
    → (rest : Bytes) × ((append a line s).file.contents
        ≡ (reattach a.attachment a.at_path s).file.contents ++ rest)
unfolding append
append-prefix a line s =
    let s1 = reattach a.attachment a.at_path s in
    write-prefix a.write_fails a.size_known a.truncates (buffer s1.unterminated line) s1

ends_mid_line-newline : (t : Bytes) → ends_mid_line (t ++ b'\n' ∷ []) ≡ false
unfolding ends_mid_line
ends_mid_line-newline [] = refl
ends_mid_line-newline (x ∷ []) = refl
ends_mid_line-newline (x ∷ y ∷ t) = ends_mid_line-newline (y ∷ t)

pub buffer-ends : (u : Bool) (line t : Bytes) → ends_mid_line (t ++ buffer u line) ≡ false
unfolding buffer
buffer-ends true line t =
    subst (λ b. ends_mid_line b ≡ false) (append_assoc t (b'\n' ∷ line) (b'\n' ∷ []))
      (ends_mid_line-newline (t ++ (b'\n' ∷ line)))
buffer-ends false line t =
    subst (λ b. ends_mid_line b ≡ false) (append_assoc t line (b'\n' ∷ []))
      (ends_mid_line-newline (t ++ line))

-- The flag is up, or the file does not end mid-record.
abbrev pub IsHonest : Sink → Type 0
IsHonest s = (s.unterminated ≡ true) ⊎ (ends_mid_line s.file.contents ≡ false)

open_log-IsHonest :
    (found : Found) (s : Sink)
    → found.opens_read ≡ true
    → IsHonest s
    → IsHonest (reopen (open_log found) s)
unfolding open_log reopen
open_log-IsHonest found s r h = ground arith

pub reattach-IsHonest :
    (t : Attachment) (found : Found) (s : Sink)
    → found.opens_read ≡ true
    → IsHonest s
    → IsHonest (reattach t found s)
unfolding reattach
reattach-IsHonest attached found s r h = h
reattach-IsHonest other_file found s r h = open_log-IsHonest found s r h
reattach-IsHonest not_found found s r h = open_log-IsHonest found s r h
reattach-IsHonest cannot_tell found s r h = h

write-IsHonest :
    (w : Option ℕ) (known_size truncates : Bool) (line : Bytes) (s : Sink)
    → IsHonest s
    → (w ≡ none) ⊎ (s.unterminated ≡ false)
    → IsHonest (
        write w
          (known known_size (length s.file.contents))
          truncates
          (buffer s.unterminated line)
          s)
unfolding write roll_back
write-IsHonest none k t line s h c = inr (buffer-ends s.unterminated line s.file.contents)
write-IsHonest (some n) false t line s h c = inl refl
write-IsHonest (some n) true false line s h c = inl refl
write-IsHonest (some n) true true line s h c =
    rw (take-append s.file.contents (take n (buffer s.unterminated line)))
      (elim c [ inl e ↦ absurd (cc) | inr e ↦ elim h [ inl k ↦ absurd (cc) | inr k ↦ inr k ] ])

-- The flag stays honest through every append, however the write goes, unless a write fails while
-- a broken line is still open. The log must be readable, where it is opened again.
pub append-IsHonest :
    (a : Answers) (line : Bytes) (s : Sink)
    → a.at_path.opens_read ≡ true
    → (a.write_fails ≡ none) ⊎ ((reattach a.attachment a.at_path s).unterminated ≡ false)
    → IsHonest s
    → IsHonest (append a line s)
unfolding append
append-IsHonest a line s r c h =
    let s1 = reattach a.attachment a.at_path s in
    write-IsHonest a.write_fails a.size_known a.truncates line s1
      (reattach-IsHonest a.attachment a.at_path s r h) c

pub rolled_back :
    (a : Answers) (line : Bytes) (s : Sink) (k : ℕ)
    → a.attachment ≡ attached
    → a.size_known ≡ true
    → a.write_fails ≡ some k
    → a.truncates ≡ true
    → ((append a line s).unterminated ≡ false) × ((append a line s).file.contents ≡ s.file.contents)
unfolding append reattach write roll_back
rolled_back a line s k ha hs hw ht =
    ground (arith, take-append s.file.contents (take k (buffer s.unterminated line)))

pub written :
    (a : Answers) (line : Bytes) (s : Sink)
    → a.attachment ≡ attached
    → a.write_fails ≡ none
    → (append a line s).file.contents ≡ s.file.contents ++ buffer s.unterminated line
unfolding append reattach write
written a line s ha hw = ground arith

-- A write that fails and is rolled back while a broken line is open leaves the broken line and
-- clears the flag that says so, and the next record that is written goes onto the broken line.
pub append-forgets_broken_line :
    (a b : Answers) (line next : Bytes) (s : Sink) (k : ℕ)
    → ends_mid_line s.file.contents ≡ true
    → (a.attachment ≡ attached) × (b.attachment ≡ attached)
    → a.size_known ≡ true
    → a.write_fails ≡ some k
    → a.truncates ≡ true
    → b.write_fails ≡ none
    → (¬ IsHonest (append a line s))
      × ((append b next (append a line s)).file.contents ≡ s.file.contents ++ (next ++ b'\n' ∷ []))
append-forgets_broken_line a b line next s k he h hs hw ht hb =
    let (u, c) = rolled_back a line s k h.0 hs hw ht in
    (
      λ honest. elim honest [ inl e ↦ cc | inr e ↦ cc (ap ends_mid_line c) ],
      written b next (append a line s) h.1 hb
          ∙ (unfold buffer in rw u (ap (λ t. t ++ (next ++ b'\n' ∷ [])) c)),
    )
