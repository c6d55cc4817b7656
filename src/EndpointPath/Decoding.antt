-- ===== src/EndpointPath/Decoding.antt =====
-- `percent_decode` of src/endpoint_path.rs: what one pass does to a string.
use nono_cedar_pdp.Base.{
  ℕ, ◌≤◌, ◌<◌, ◌≡◌, refl, ap, ◌∙◌, ◌⊎◌, inl, inr, true, false, ◌||◌, Option, none, some, [], ◌∷◌,
  ◌++◌, arith, ◌==◌, Bool-cases, Text, Bytes, length, All, contains, Result, ok, err, bind-eq_ok,
}
use nono_cedar_pdp.Utf8.{
  IsScalar, encode_char, as_bytes, from_utf8, from_utf8-as_bytes, from_utf8-eq_some,
}
use nono_cedar_pdp.EndpointPath.{
  Ambiguity, malformed_escape, non_utf8, hex, push_byte, push_escaped, decode_loop, to_text,
  percent_decode,
}

decode_loop-plain : (bs : Bytes) → contains b'%' bs ≡ false → decode_loop bs ≡ ok bs
unfolding decode_loop contains
decode_loop-plain [] h = refl
decode_loop-plain (b ∷ []) h = ground arith
decode_loop-plain (b ∷ c ∷ []) h = ground (arith, decode_loop-plain (c ∷ []))
decode_loop-plain (b ∷ c ∷ d ∷ bs) h = ground (arith, decode_loop-plain (c ∷ d ∷ bs))

decode_loop_escape :
    (b c d : ℕ) (bs : Bytes)
    → (b == b'%') ≡ true
    → push_escaped (hex c) (hex d) (decode_loop bs) ≡ decode_loop (b ∷ c ∷ d ∷ bs)
unfolding decode_loop
decode_loop_escape b c d bs e = rw e refl

decode_loop_plain :
    (b c d : ℕ) (bs : Bytes)
    → (b == b'%') ≡ false
    → push_byte b (decode_loop (c ∷ d ∷ bs)) ≡ decode_loop (b ∷ c ∷ d ∷ bs)
unfolding decode_loop
decode_loop_plain b c d bs e = rw e refl

push_byte-eq_ok :
    (b : ℕ) (r : Result Ambiguity Bytes) {out : Bytes}
    → push_byte b r ≡ ok out
    → (rest : Bytes) × (r ≡ ok rest) × (out ≡ b ∷ rest)
push_byte-eq_ok b (ok o) h = (o, refl, ground arith)
push_byte-eq_ok b (err e) h = absurd (cc)

push_escaped-eq_ok :
    (x y : Option ℕ) (r : Result Ambiguity Bytes) {out : Bytes}
    → push_escaped x y r ≡ ok out
    → (b : ℕ) × (rest : Bytes) × (r ≡ ok rest) × (out ≡ b ∷ rest)
unfolding push_escaped
push_escaped-eq_ok (some x) (some y) r h =
    let (rest, e, q) = push_byte-eq_ok _ r h in (_, rest, e, q)
push_escaped-eq_ok (some x) none r h = absurd (cc)
push_escaped-eq_ok none y r h = absurd (cc)

-- One pass over bytes never makes them more, and each escape makes them fewer.
abbrev Shrinks : Bytes → Bytes → Type 0
Shrinks bs out = (length out ≤ length bs) × (contains b'%' bs ≡ true → length out < length bs)

Shrinks-plain :
    (b : ℕ) (bs rest out : Bytes)
    → (b == b'%') ≡ false
    → out ≡ b ∷ rest
    → Shrinks bs rest
    → Shrinks (b ∷ bs) out
unfolding contains
Shrinks-plain b bs rest out p q h = ground (arith, ap length q, h)

decode_loop-Shrinks : (bs out : Bytes) → decode_loop bs ≡ ok out → Shrinks bs out
decode_loop-Shrinks [] out h = unfold decode_loop contains in ground arith
decode_loop-Shrinks (b ∷ []) out h = unfold decode_loop contains in ground arith
decode_loop-Shrinks (b ∷ c ∷ []) out h = elim (Bool-cases (b == b'%')) [
  | inl e ↦ absurd (unfold decode_loop in ground arith)
  | inr e ↦
      let g : push_byte b (decode_loop (c ∷ [])) ≡ ok out = unfold decode_loop in ground arith in
      let (rest, r, q) = push_byte-eq_ok b (decode_loop (c ∷ [])) g in
      Shrinks-plain b (c ∷ []) rest out e q (decode_loop-Shrinks (c ∷ []) rest r)
]
decode_loop-Shrinks (b ∷ c ∷ d ∷ bs) out h = elim (Bool-cases (b == b'%')) [
  | inl e ↦
      let g : push_escaped (hex c) (hex d) (decode_loop bs) ≡ ok out =
        decode_loop_escape b c d bs e ∙ h in
      let (x, rest, r, q) = push_escaped-eq_ok (hex c) (hex d) (decode_loop bs) g in
      let s = decode_loop-Shrinks bs rest r in
      (omega (arith, ap length q, s.0), λ _. omega (arith, ap length q, s.0))
  | inr e ↦
      let g : push_byte b (decode_loop (c ∷ d ∷ bs)) ≡ ok out = decode_loop_plain b c d bs e ∙ h in
      let (rest, r, q) = push_byte-eq_ok b (decode_loop (c ∷ d ∷ bs)) g in
      Shrinks-plain b (c ∷ d ∷ bs) rest out e q (decode_loop-Shrinks (c ∷ d ∷ bs) rest r)
]

contains-append : (c : ℕ) (a b : Text) → contains c (a ++ b) ≡ (contains c a || contains c b)
unfolding contains
contains-append c [] b = refl
contains-append c (x ∷ a) b = ground (arith, contains-append c a b)

contains-encode_char : (c : ℕ) → contains b'%' (encode_char c) ≡ (c == b'%')
unfolding contains encode_char
contains-encode_char c = ground arith

contains-as_bytes : (t : Text) → contains b'%' (as_bytes t) ≡ contains b'%' t
unfolding as_bytes
contains-as_bytes [] = unfold contains in refl
contains-as_bytes (c ∷ cs) =
    contains-append b'%' (encode_char c) (as_bytes cs)
    ∙ rw (contains-encode_char c, contains-as_bytes cs) (unfold contains in refl)

-- A string with no `%` decodes to itself.
pub percent_decode-plain :
    (t : Text) → All IsScalar t → contains b'%' t ≡ false → percent_decode t ≡ ok t
unfolding percent_decode to_text
percent_decode-plain t s h =
    rw (decode_loop-plain (as_bytes t) (contains-as_bytes t ∙ h)) (rw (from_utf8-as_bytes t s))

to_text-eq_ok : (o : Option Text) {t : Text} → to_text o ≡ ok t → o ≡ some t
unfolding to_text
to_text-eq_ok (some u) h = ground arith
to_text-eq_ok none h = absurd (cc)

-- What a pass returns is a string again, with fewer bytes if there was a `%`.
pub percent_decode-eq_ok :
    (t u : Text)
    → percent_decode t ≡ ok u
    → All IsScalar u
      × (length (as_bytes u) ≤ length (as_bytes t))
      × (contains b'%' t ≡ true → length (as_bytes u) < length (as_bytes t))
unfolding percent_decode
percent_decode-eq_ok t u h =
    let (out, d, f) = bind-eq_ok (decode_loop (as_bytes t)) (λ o. to_text (from_utf8 o)) h in
    let (s, q) = from_utf8-eq_some out u (to_text-eq_ok (from_utf8 out) f) in
    let (le, lt) = decode_loop-Shrinks (as_bytes t) out d in
    rw q (s, le, λ c. lt (contains-as_bytes t ∙ c))

-- The two ways in which one pass fails.
abbrev pub Undecodable : Ambiguity → Type 0
Undecodable e = (e ≡ malformed_escape) ⊎ (e ≡ non_utf8)

push_byte-eq_err :
    (b : ℕ) (r : Result Ambiguity Bytes) {e : Ambiguity} → push_byte b r ≡ err e → r ≡ err e
push_byte-eq_err b (ok o) h = absurd (cc)
push_byte-eq_err b (err e) h = h

push_escaped-eq_err :
    (x y : Option ℕ) (r : Result Ambiguity Bytes) {e : Ambiguity}
    → push_escaped x y r ≡ err e
    → (r ≡ err e) ⊎ (e ≡ malformed_escape)
unfolding push_escaped
push_escaped-eq_err (some x) (some y) r h = inl (push_byte-eq_err _ r h)
push_escaped-eq_err (some x) none r h = inr (ground arith)
push_escaped-eq_err none y r h = inr (ground arith)

decode_loop-eq_err : (bs : Bytes) (e : Ambiguity) → decode_loop bs ≡ err e → e ≡ malformed_escape
decode_loop-eq_err [] e h = unfold decode_loop in ground arith
decode_loop-eq_err (b ∷ []) e h = unfold decode_loop in ground arith
decode_loop-eq_err (b ∷ c ∷ []) e h = unfold decode_loop in ground arith
decode_loop-eq_err (b ∷ c ∷ d ∷ bs) e h = elim (Bool-cases (b == b'%')) [
  | inl t ↦
      elim (push_escaped-eq_err (hex c) (hex d) (decode_loop bs)
        (decode_loop_escape b c d bs t ∙ h)) [ inl r ↦ decode_loop-eq_err bs e r | inr m ↦ m ]
  | inr t ↦
      decode_loop-eq_err (c ∷ d ∷ bs) e
        (push_byte-eq_err b (decode_loop (c ∷ d ∷ bs)) (decode_loop_plain b c d bs t ∙ h))
]

pub undecodable : (t : Text) {e : Ambiguity} → percent_decode t ≡ err e → Undecodable e
unfolding percent_decode to_text
undecodable t {e} h = ground (arith, decode_loop-eq_err (as_bytes t) e)
