-- ===== src/Utf8.antt =====
-- The UTF-8 coding of the standard library's strings: `str::as_bytes` and `String::from_utf8`.
use nono_cedar_pdp.Base.{
  ℕ, zero, suc, ◌+◌, ◌-◌, ◌*◌, ◌/◌, ◌%◌, ◌≤◌, ◌<◌, ◌≡◌, refl, ap, sym, inl, inr, Option-cases, ◌∙◌,
  Bool, true, ◌&&◌, ◌||◌, Option, none, some, [], ◌∷◌, ◌++◌, arith, ltb, leb, if◌then◌else◌, Text,
  Bytes, length, length-append, All, ◌≢◌,
}

-- A Unicode scalar value: what a `char` can hold.
unfoldable pub is_scalar : ℕ → Bool
is_scalar c = ltb c 0xd800 || (leb 0xe000 c && leb c 0x10ffff)

abbrev pub IsScalar : ℕ → Type 0
IsScalar c = is_scalar c ≡ true

unfoldable pub encode_char : ℕ → Bytes
encode_char c =
    if ltb c 0x80
    then c ∷ []
    else if ltb c 0x800
    then (0xc0 + c / 64) ∷ (0x80 + c % 64) ∷ []
    else if ltb c 0x10000
    then (0xe0 + c / 4096) ∷ (0x80 + c / 64 % 64) ∷ (0x80 + c % 64) ∷ []
    else (0xf0 + c / 262144) ∷ (0x80 + c / 4096 % 64) ∷ (0x80 + c / 64 % 64) ∷ (0x80 + c % 64) ∷ []

unfoldable pub as_bytes : Text → Bytes
as_bytes [] = []
as_bytes (c ∷ cs) = encode_char c ++ as_bytes cs

abbrev is_continuation : ℕ → Bool
is_continuation b = leb 0x80 b && ltb b 0xc0

-- A decoded value is refused if a shorter form exists or if it is no scalar value.
accept : Bool → ℕ → ℕ → Bytes → Option (ℕ × Bytes)
accept well_formed least c rest =
    if well_formed && leb least c && is_scalar c then some (c, rest) else none

two : ℕ → Bytes → Option (ℕ × Bytes)
two a (b ∷ rest) = accept (leb 0xc0 a && is_continuation b) 0x80 ((a - 0xc0) * 64 + (b - 0x80)) rest
two a [] = none

three : ℕ → Bytes → Option (ℕ × Bytes)
three a (b ∷ c ∷ rest) =
    accept (is_continuation b && is_continuation c) 0x800
      ((a - 0xe0) * 4096 + (b - 0x80) * 64 + (c - 0x80)) rest
three a (b ∷ []) = none
three a [] = none

four : ℕ → Bytes → Option (ℕ × Bytes)
four a (b ∷ c ∷ d ∷ rest) =
    accept (is_continuation b && is_continuation c && is_continuation d) 0x10000
      ((a - 0xf0) * 262144 + (b - 0x80) * 4096 + (c - 0x80) * 64 + (d - 0x80)) rest
four a (b ∷ c ∷ []) = none
four a (b ∷ []) = none
four a [] = none

-- The first character of a byte string and what follows it.
next_char : Bytes → Option (ℕ × Bytes)
next_char [] = none
next_char (a ∷ bs) =
    if ltb a 0x80
    then some (a, bs)
    else if ltb a 0xe0
    then two a bs
    else if ltb a 0xf0
    then three a bs
    else four a bs

abbrev push : ℕ → Option Text → Option Text
push c none = none
push c (some cs) = some (c ∷ cs)

-- Each character takes at least one byte, so the length is fuel enough.
decode : ℕ → Bytes → Option Text
decode _ [] = some []
decode zero (_ ∷ _) = none
decode (suc fuel) (b ∷ bs) = elim (next_char (b ∷ bs)) [
  | none ↦ none
  | some (c, rest) ↦ push c (decode fuel rest)
]

unfoldable pub from_utf8 : Bytes → Option Text
unfolding decode next_char two three four accept is_scalar
from_utf8 bs = decode (length bs) bs

next_char-encode_char :
    (c : ℕ) (rest : Bytes) → IsScalar c → next_char (encode_char c ++ rest) ≡ some (c, rest)
unfolding next_char two three four accept is_scalar encode_char
next_char-encode_char c rest h = ground arith

accept-eq_some :
    (w : Bool) (least v : ℕ) (bs : Bytes) {c : ℕ} {rest : Bytes}
    → accept w least v bs ≡ some (c, rest)
    → (w ≡ true) × (least ≤ v) × IsScalar v × (v ≡ c) × (bs ≡ rest)
unfolding accept
accept-eq_some w least v bs h = ground arith

scalar_bound : (c : ℕ) → IsScalar c → c ≤ 0x10ffff
unfolding is_scalar
scalar_bound c h = ground arith

abbrev Continues : ℕ → Type 0
Continues b = is_continuation b ≡ true

encode_two :
    (a b : ℕ)
    → 0xc0 ≤ a
    → a < 0xe0
    → Continues b
    → 0x80 ≤ (a - 0xc0) * 64 + (b - 0x80)
    → encode_char ((a - 0xc0) * 64 + (b - 0x80)) ≡ a ∷ b ∷ []
unfolding encode_char
encode_two a b la ua hb l = ground arith

encode_three :
    (a b c : ℕ)
    → 0xe0 ≤ a
    → a < 0xf0
    → Continues b
    → Continues c
    → 0x800 ≤ (a - 0xe0) * 4096 + (b - 0x80) * 64 + (c - 0x80)
    → encode_char ((a - 0xe0) * 4096 + (b - 0x80) * 64 + (c - 0x80)) ≡ a ∷ b ∷ c ∷ []
unfolding encode_char
encode_three a b c la ua hb hc l = ground arith

encode_four :
    (a b c d : ℕ)
    → 0xf0 ≤ a
    → Continues b
    → Continues c
    → Continues d
    → 0x10000 ≤ (a - 0xf0) * 262144 + (b - 0x80) * 4096 + (c - 0x80) * 64 + (d - 0x80)
    → encode_char ((a - 0xf0) * 262144 + (b - 0x80) * 4096 + (c - 0x80) * 64 + (d - 0x80))
      ≡ a ∷ b ∷ c ∷ d ∷ []
unfolding encode_char
encode_four a b c d la hb hc hd l = ground arith

abbrev Reads : Bytes → ℕ → Bytes → Type 0
Reads bs c rest = IsScalar c × (bs ≡ encode_char c ++ rest)

encode_one : (c : ℕ) → c < 0x80 → IsScalar c × (encode_char c ≡ c ∷ [])
unfolding encode_char is_scalar
encode_one c h = ground arith

two-Reads :
    (a : ℕ) (bs : Bytes) (c : ℕ) (rest : Bytes)
    → a < 0xe0
    → two a bs ≡ some (c, rest)
    → Reads (a ∷ bs) c rest
unfolding two
two-Reads a [] c rest u h = cc
two-Reads a (b ∷ bs) c rest u h =
    let (w, l, s, v, r) = accept-eq_some _ _ _ bs h in ground (arith, w, l, s, v, r, encode_two a b)

three-Reads :
    (a : ℕ) (bs : Bytes) (c : ℕ) (rest : Bytes)
    → 0xe0 ≤ a
    → a < 0xf0
    → three a bs ≡ some (c, rest)
    → Reads (a ∷ bs) c rest
unfolding three
three-Reads a [] c rest l u h = cc
three-Reads a (x ∷ []) v rest l u h = cc
three-Reads a (x ∷ y ∷ bs) v rest l u h =
    let (w, m, s, v, r) = accept-eq_some _ _ _ bs h in
    ground (arith, w, m, s, v, r, encode_three a x y)

four-Reads :
    (a : ℕ) (bs : Bytes) (c : ℕ) (rest : Bytes)
    → 0xf0 ≤ a
    → four a bs ≡ some (c, rest)
    → Reads (a ∷ bs) c rest
unfolding four
four-Reads a [] c rest l h = cc
four-Reads a (x ∷ []) v rest l h = cc
four-Reads a (x ∷ y ∷ []) v rest l h = cc
four-Reads a (x ∷ y ∷ z ∷ bs) v rest l h =
    let (w, m, s, v, r) = accept-eq_some _ _ _ bs h in
    ground (arith, w, m, s, v, r, encode_four a x y z)

next_char-eq_some :
    (bs : Bytes) (c : ℕ) (rest : Bytes) → next_char bs ≡ some (c, rest) → Reads bs c rest
unfolding next_char
next_char-eq_some [] c rest h = cc
next_char-eq_some (a ∷ bs) c rest h =
    ground
      (arith, encode_one a, two-Reads a bs c rest, three-Reads a bs c rest, four-Reads a bs c rest)

length-encode_char : (c : ℕ) → 1 ≤ length (encode_char c)
unfolding encode_char
length-encode_char c = ground arith

-- On bytes that begin with a character, one round of the loop takes it.
decode_step :
    (fuel : ℕ) (bs rest : Bytes) (c : ℕ)
    → next_char bs ≡ some (c, rest)
    → decode (suc fuel) bs ≡ push c (decode fuel rest)
unfolding decode
decode_step fuel [] rest c h = absurd (unfold next_char in cc)
decode_step fuel (b ∷ bs) rest c h = rw (h, decode)

decode_stop :
    (fuel : ℕ) (b : ℕ) (bs : Bytes) {t : Text}
    → next_char (b ∷ bs) ≡ none
    → decode (suc fuel) (b ∷ bs) ≢ some t
unfolding decode
decode_stop fuel b bs e = rw (e, decode) (λ h. cc)

decode-as_bytes :
    (fuel : ℕ) (t : Text)
    → All IsScalar t
    → length (as_bytes t) ≤ fuel
    → decode fuel (as_bytes t) ≡ some t
unfolding as_bytes
decode-as_bytes zero [] h l = unfold decode in refl
decode-as_bytes (suc fuel) [] h l = unfold decode in refl
decode-as_bytes zero (c ∷ cs) h l =
    absurd (omega (arith, length-append (encode_char c) (as_bytes cs), length-encode_char c))
decode-as_bytes (suc fuel) (c ∷ cs) h l =
    decode_step fuel (encode_char c ++ as_bytes cs) (as_bytes cs) c
      (next_char-encode_char c (as_bytes cs) h.0)
    ∙ rw (
        decode-as_bytes fuel cs h.1
          (omega (arith, length-append (encode_char c) (as_bytes cs), length-encode_char c)))

-- Reading back the bytes of a string gives the string.
pub from_utf8-as_bytes : (t : Text) → All IsScalar t → from_utf8 (as_bytes t) ≡ some t
unfolding from_utf8
from_utf8-as_bytes t h = decode-as_bytes (length (as_bytes t)) t h (omega arith)

push-eq_some :
    (c : ℕ) (o : Option Text) {t : Text}
    → push c o ≡ some t
    → (cs : Text) × (o ≡ some cs) × (t ≡ c ∷ cs)
push-eq_some c none h = cc
push-eq_some c (some cs) h = (cs, refl, cc)

decode-eq_some :
    (fuel : ℕ) (bs : Bytes) (t : Text)
    → decode fuel bs ≡ some t
    → All IsScalar t × (as_bytes t ≡ bs)
unfolding as_bytes
decode-eq_some zero [] [] h = (tt, refl)
decode-eq_some zero [] (c ∷ cs) h = unfold decode in cc
decode-eq_some zero (b ∷ bs) t h = unfold decode in cc
decode-eq_some (suc fuel) [] [] h = (tt, refl)
decode-eq_some (suc fuel) [] (c ∷ cs) h = unfold decode in cc
decode-eq_some (suc fuel) (b ∷ bs) t h = elim (Option-cases (next_char (b ∷ bs))) [
  | inl e ↦ absurd (decode_stop fuel b bs e h)
  | inr ((c, rest), e) ↦
      let (cs, d, p) = push-eq_some c (decode fuel rest) (sym (decode_step fuel _ rest c e) ∙ h) in
      let (s, q) = decode-eq_some fuel rest cs d in
      let (r, z) = next_char-eq_some (b ∷ bs) c rest e in
      rw p ((r, s), ap (◌++◌ (encode_char c)) q ∙ sym z)
]

-- Whatever `String::from_utf8` accepts is a string with exactly those bytes.
pub from_utf8-eq_some :
    (bs : Bytes) (t : Text) → from_utf8 bs ≡ some t → All IsScalar t × (as_bytes t ≡ bs)
unfolding from_utf8
from_utf8-eq_some bs t h = decode-eq_some (length bs) bs t h
