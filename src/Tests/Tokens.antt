-- ===== src/Tests/Tokens.antt =====
-- A small stand-in for serde's JSON crate: a writer of the fields of a line, and a reader that gets
-- them back. A token above 19 is a character; those below tell what the characters behind them are.
use mathlib.Core.List.{append_assoc, append-nil}
use nono_cedar_pdp.Base.{
  ℕ, ◌+◌, ◌-◌, ◌≡◌, refl, ap, ◌∙◌, true, false, Option, some, List, [], ◌∷◌, ◌++◌, ◌==◌,
  if◌then◌else◌, Text, Bytes, contains, arith,
}
use nono_cedar_pdp.Audit.Fields.{Value, null, string, number, boolean, strings}

record Parts : Type 0 where
  chars : Text
  texts : List Text
  value : Value
  fields : List (Text × Value)

abbrev blank : List (Text × Value) → Parts
blank fs = record { chars = []; texts = []; value = null; fields = fs }

abbrev head_or_zero : Text → ℕ
head_or_zero [] = 0
head_or_zero (c ∷ cs) = c

-- What one token does to the parts behind it.
token : ℕ → Parts → Parts
token x p =
    if x == 11
    then record p { chars = []; value = null; fields = (p.chars, p.value) ∷ p.fields }
    else if x == 12
    then record p { chars = []; value = string p.chars }
    else if x == 13
    then record p { chars = []; value = number (head_or_zero p.chars) }
    else if x == 14
    then record p { value = boolean true }
    else if x == 15
    then record p { value = boolean false }
    else if x == 16
    then record p { texts = []; value = strings p.texts }
    else if x == 17
    then record p { chars = []; texts = p.chars ∷ p.texts }
    else record p { chars = (x - 20) ∷ p.chars }

parts : Bytes → Parts
parts [] = blank []
parts (x ∷ xs) = token x (parts xs)

chars_of : Text → Bytes
chars_of [] = []
chars_of (c ∷ cs) = (c + 20) ∷ chars_of cs

texts_of : List Text → Bytes
texts_of [] = []
texts_of (t ∷ ts) = 17 ∷ (chars_of t ++ texts_of ts)

value_of : Value → Bytes
value_of null = []
value_of (string t) = 12 ∷ chars_of t
value_of (number n) = 13 ∷ chars_of (n ∷ [])
value_of (boolean true) = 14 ∷ []
value_of (boolean false) = 15 ∷ []
value_of (strings ts) = 16 ∷ texts_of ts

pub write_tokens : List (Text × Value) → Bytes
write_tokens [] = []
write_tokens ((k, v) ∷ fs) = 11 ∷ (chars_of k ++ (value_of v ++ write_tokens fs))

pub read_tokens : Bytes → Option (List (Text × Value))
read_tokens bs = some (parts bs).fields

token_char : (c : ℕ) (p : Parts) → token (c + 20) p ≡ record p { chars = c ∷ p.chars }
unfolding token
token_char c p = ground arith

parts-chars :
    (t : Text) (xs : Bytes)
    → parts (chars_of t ++ xs) ≡ record (parts xs) { chars = t ++ (parts xs).chars }
unfolding chars_of parts
parts-chars [] xs = refl
parts-chars (c ∷ t) xs =
    token_char c (parts (chars_of t ++ xs))
    ∙ ap {A = Parts} (λ p. record p { chars = c ∷ p.chars }) (parts-chars t xs)

parts_behind :
    (t : Text) (xs : Bytes) {q : Parts}
    → parts xs ≡ q
    → q.chars ≡ []
    → parts (chars_of t ++ xs) ≡ record q { chars = t }
parts_behind t xs {q} h e =
    parts-chars t xs
    ∙ (ap {A = Parts} (λ p. record p { chars = t ++ p.chars }) h
        ∙ ap {A = Text} (λ cs. record q { chars = cs }) (ap (λ cs. t ++ cs) e ∙ append-nil t))

parts-texts :
    (ts : List Text) (xs : Bytes) (fs : List (Text × Value))
    → parts xs ≡ blank fs
    → parts (texts_of ts ++ xs) ≡ record (blank fs) { texts = ts }
unfolding texts_of parts token
parts-texts [] xs fs h = h
parts-texts (t ∷ ts) xs fs h =
    ap parts (ap (◌∷◌ 17) (append_assoc (chars_of t) (texts_of ts) xs))
    ∙ ap (token 17) (parts_behind t (texts_of ts ++ xs) (parts-texts ts xs fs h) refl)

parts-value :
    (v : Value) (xs : Bytes) (fs : List (Text × Value))
    → parts xs ≡ blank fs
    → parts (value_of v ++ xs) ≡ record (blank fs) { value = v }
unfolding value_of parts token
parts-value null xs fs h = h
parts-value (string t) xs fs h = ap (token 12) (parts_behind t xs h refl)
parts-value (number n) xs fs h = ap (token 13) (parts_behind (n ∷ []) xs h refl)
parts-value (boolean true) xs fs h = ap {A = Parts} (λ p. record p { value = boolean true }) h
parts-value (boolean false) xs fs h = ap {A = Parts} (λ p. record p { value = boolean false }) h
parts-value (strings ts) xs fs h = ap (token 16) (parts-texts ts xs fs h)

parts-write : (fs : List (Text × Value)) → parts (write_tokens fs) ≡ blank fs
unfolding write_tokens parts token
parts-write [] = refl
parts-write ((k, v) ∷ fs) = ap (token 11) (
    parts_behind k (value_of v ++ write_tokens fs)
      (parts-value v (write_tokens fs) fs (parts-write fs)) refl)

pub tokens_read_back : (v : List (Text × Value)) → read_tokens (write_tokens v) ≡ some v
unfolding read_tokens
tokens_read_back v = ap (λ p. some p.fields) (parts-write v)

contains-append_false :
    (c : ℕ) (a b : Bytes)
    → contains c a ≡ false
    → contains c b ≡ false
    → contains c (a ++ b) ≡ false
unfolding contains
contains-append_false c [] b h k = k
contains-append_false c (x ∷ a) b h k = ground (arith, contains-append_false c a b)

chars-one_line : (t : Text) → contains 10 (chars_of t) ≡ false
unfolding contains chars_of
chars-one_line [] = refl
chars-one_line (c ∷ t) = ground (arith, chars-one_line t)

texts-one_line : (ts : List Text) → contains 10 (texts_of ts) ≡ false
unfolding contains texts_of
texts-one_line [] = refl
texts-one_line (t ∷ ts) =
    contains-append_false 10 (chars_of t) (texts_of ts) (chars-one_line t) (texts-one_line ts)

value-one_line : (v : Value) → contains 10 (value_of v) ≡ false
unfolding contains value_of
value-one_line null = refl
value-one_line (string t) = chars-one_line t
value-one_line (number n) = chars-one_line (n ∷ [])
value-one_line (boolean true) = refl
value-one_line (boolean false) = refl
value-one_line (strings ts) = texts-one_line ts

pub tokens_one_line : (v : List (Text × Value)) → contains b'\n' (write_tokens v) ≡ false
unfolding contains write_tokens
tokens_one_line [] = refl
tokens_one_line ((k, v) ∷ fs) =
    contains-append_false 10 (chars_of k) (value_of v ++ write_tokens fs) (chars-one_line k) (
      contains-append_false 10 (value_of v) (write_tokens fs) (value-one_line v)
        (tokens_one_line fs))
