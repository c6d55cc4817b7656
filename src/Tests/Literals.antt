-- ===== src/Tests/Literals.antt =====
-- A reader of quoted literals, in which a carriage return cannot stand, and a name with a quote.
use nono_cedar_pdp.Base.{
  ℕ, ◌≡◌, ◌≢◌, refl, Bool, true, not, Option, none, some, [], ◌∷◌, ◌++◌, arith, ◌==◌, if◌then◌else◌,
  Text, lit,
}
use nono_cedar_pdp.Entities.{escape}
use nono_cedar_pdp.Entities.Escape.{LiteralReader, read-escape}

abbrev accepts : ℕ → Bool
accepts c = not (c == 13)

abbrev onto : ℕ → Option (Text × Text) → Option (Text × Text)
onto c none = none
onto c (some (t, rest)) = some (c ∷ t, rest)

unfoldable read_literal : Text → Option (Text × Text)
read_literal [] = none
read_literal (c ∷ []) = if c == b'"' then some ([], []) else none
read_literal (c ∷ d ∷ cs) =
    let escaped = onto d (read_literal cs) in
    let plain = onto c (read_literal (d ∷ cs)) in
    if c == b'"'
    then some ([], d ∷ cs)
    else if c == b'\\'
    then if d == b'\\' then escaped else if d == b'"' then escaped else none
    else if accepts c
    then plain
    else none

closing : (rest : Text) → read_literal (b'"' ∷ rest) ≡ some ([], rest)
unfolding read_literal
closing [] = refl
closing (d ∷ cs) = refl

plain :
    (c : ℕ) (cs t rest : Text)
    → accepts c ≡ true
    → c ≢ b'"'
    → c ≢ b'\\'
    → read_literal cs ≡ some (t, rest)
    → read_literal (c ∷ cs) ≡ some (c ∷ t, rest)
unfolding read_literal
plain c [] t rest a p q h = absurd (cc)
plain c (d ∷ cs) t rest a p q h = rw a (rw h (ground arith))

abbrev reader : LiteralReader
reader = record {
  read = read_literal;
  accepts = accepts;
  closing = closing;
  backslash = λ cs t rest h. unfold read_literal in rw h refl;
  quote = λ cs t rest h. unfold read_literal in rw h refl;
  plain = plain;
}

read-escape_example :
    reader.read (escape (lit "a\"\\") ++ (b'"' ∷ lit " rest")) ≡ some (lit "a\"\\", lit " rest")
unfolding lit
read-escape_example = read-escape reader (lit "a\"\\") (lit " rest") (refl, (refl, (refl, tt)))
