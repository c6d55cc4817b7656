-- ===== src/Entities/Escape.antt =====
-- `escape` of src/cedar/entities.rs: an entity id cannot break out of its quoted literal.
use nono_cedar_pdp.Base.{
  ℕ, ◌≡◌, ◌≢◌, sym, ap, ◌∙◌, inl, inr, Bool, true, Bool-cases, Option, some, [], ◌∷◌, ◌++◌,
  append_assoc, arith, ◌==◌, if◌then◌else◌, Text, All,
}
use nono_cedar_pdp.Entities.{escape}

-- How the Cedar crate reads a quoted literal behind its opening quote: the text meant, and what
-- follows the closing quote. `accepts` are the characters that a literal can hold: a quote and a
-- backslash behind a backslash, each other as it is. That a literal ends at its first quote without a
-- backslash, and that these two escapes mean their second character, is Cedar's grammar.
pub record LiteralReader : Type 0 where
  pub read : Text → Option (Text × Text)
  pub accepts : ℕ → Bool
  pub closing : (rest : Text) → read (b'"' ∷ rest) ≡ some ([], rest)
  pub backslash :
      (cs t rest : Text)
      → read cs ≡ some (t, rest)
      → read (b'\\' ∷ b'\\' ∷ cs) ≡ some (b'\\' ∷ t, rest)
  pub quote :
      (cs t rest : Text)
      → read cs ≡ some (t, rest)
      → read (b'\\' ∷ b'"' ∷ cs) ≡ some (b'"' ∷ t, rest)
  pub plain :
      (c : ℕ) (cs t rest : Text)
      → accepts c ≡ true
      → c ≢ b'"'
      → c ≢ b'\\'
      → read cs ≡ some (t, rest)
      → read (c ∷ cs) ≡ some (c ∷ t, rest)

-- One character as the two replacements leave it.
abbrev escape_char : ℕ → Text
escape_char c =
    if c == b'\\' then b'\\' ∷ b'\\' ∷ [] else if c == b'"' then b'\\' ∷ b'"' ∷ [] else c ∷ []

escape-cons : (c : ℕ) (cs : Text) → escape (c ∷ cs) ≡ escape_char c ++ escape cs
unfolding escape
escape-cons c cs = ground arith

module _ (r : LiteralReader) where
  read_char :
      (c : ℕ) (cs t rest : Text)
      → r.accepts c ≡ true
      → r.read cs ≡ some (t, rest)
      → r.read (escape_char c ++ cs) ≡ some (c ∷ t, rest)
  read_char c cs t rest a h = elim (Bool-cases (c == b'\\')) [
    | inl e ↦
        let q : c ≡ b'\\' = ground (arith, e) in
        rw e (r.backslash cs t rest h ∙ ap (λ x. some (x ∷ t, rest)) (sym q))
    | inr e ↦ elim (Bool-cases (c == b'"')) [
      | inl f ↦
          let q : c ≡ b'"' = ground (arith, f) in
          rw e (rw f (r.quote cs t rest h ∙ ap (λ x. some (x ∷ t, rest)) (sym q)))
      | inr f ↦
          rw e
            (rw f (r.plain c cs t rest a (λ q. ground (arith, f, q)) (λ q. ground (arith, e, q)) h))
    ]
  ]

  -- Whatever a name holds that a literal can hold, Cedar's reader gets exactly that name from the
  -- quoted literal, and the literal ends at the quote that the source wrote: a name with quotes or
  -- backslashes cannot break out of it.
  pub read-escape :
      (raw rest : Text)
      → All (λ c. r.accepts c ≡ true) raw
      → r.read (escape raw ++ (b'"' ∷ rest)) ≡ some (raw, rest)
  unfolding escape
  read-escape [] rest a = r.closing rest
  read-escape (c ∷ cs) rest a =
      let tail = b'"' ∷ rest in
      ap (λ t. r.read (t ++ tail)) (escape-cons c cs)
      ∙ ap r.read (append_assoc (escape_char c) (escape cs) tail)
      ∙ read_char c (escape cs ++ tail) cs rest a.0 (read-escape cs rest a.1)
