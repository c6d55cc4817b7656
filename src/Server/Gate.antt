-- ===== src/Server/Gate.antt =====
-- What `header_gate` of src/server.rs lets through.
use nono_cedar_pdp.Base.{
  ℕ, ◌≡◌, refl, sym, ◌∙◌, ◌↔◌, ◌⊎◌, inl, inr, true, false, none, some, Option-cases, Bool-cases,
  List, [], ◌∷◌, ◌++◌, ◌==◌, Text, Bytes, lit, map, ==_iff, if◌then◌else◌,
}
use nono_cedar_pdp.EndpointPath.{onto, split, first_or}
use nono_cedar_pdp.Server.{
  HeaderMap, error, Reply, is_json_content_type, media_type, eq_ignore_ascii_case, to_lower,
  refuse_origin, trim, observed, header_gate,
}

some-injective : {A : Type 0} {a b : A} → some a ≡ some b → a ≡ b
some-injective h = cc

pub wrong_type : Reply
wrong_type = record {
  status = 415;
  body = error (lit "this endpoint requires Content-Type: application/json");
}

pub browser : Reply
browser = record {
  status = 403;
  body = error (lit "this endpoint refuses requests carrying an Origin header");
}

-- The three ways through the gate.
pub data Outcome (lossy : Bytes → Text) (headers : HeaderMap) : Type 0 where
  open_gate :
      is_json_content_type (observed lossy headers (lit "content-type")) ≡ true
      → observed lossy headers (lit "origin") ≡ none
      → header_gate lossy headers ≡ none
      → Outcome lossy headers
  origin :
      (t : Text)
      → is_json_content_type (observed lossy headers (lit "content-type")) ≡ true
      → observed lossy headers (lit "origin") ≡ some t
      → header_gate lossy headers ≡ some browser
      → Outcome lossy headers
  content_type :
      is_json_content_type (observed lossy headers (lit "content-type")) ≡ false
      → header_gate lossy headers ≡ some wrong_type
      → Outcome lossy headers

pub header_gate-Outcome : (lossy : Bytes → Text) (headers : HeaderMap) → Outcome lossy headers
unfolding header_gate refuse_origin wrong_type browser
header_gate-Outcome lossy headers =
    elim (Bool-cases (is_json_content_type (observed lossy headers (lit "content-type")))) [
      | inl j ↦ elim (Option-cases (observed lossy headers (lit "origin"))) [
        | inl z ↦ open_gate j z (rw (header_gate, j, z) refl)
        | inr (t, z) ↦ origin t j z (rw (header_gate, j, z) refl)
      ]
      | inr j ↦ content_type j (rw (header_gate, j) refl)
    ]

-- The gate lets a request through exactly when its Content-Type is JSON and it has no Origin.
pub header_gate-none_iff :
    (lossy : Bytes → Text) (headers : HeaderMap)
    → (header_gate lossy headers ≡ none) ↔ (
        (is_json_content_type (observed lossy headers (lit "content-type")) ≡ true)
        × (observed lossy headers (lit "origin") ≡ none))
header_gate-none_iff lossy headers = elim (header_gate-Outcome lossy headers) [
  | open_gate j z g ↦ (λ h. (j, z), λ h. g)
  | origin t j z g ↦ (λ h. absurd (cc), λ (a, b). absurd (cc))
  | content_type j g ↦ (λ h. absurd (cc), λ (a, b). absurd (cc))
]

-- A refusal of the gate has status 403 or 415 and an error for a body.
pub header_gate-refusal :
    (lossy : Bytes → Text) (headers : HeaderMap) (reply : Reply)
    → header_gate lossy headers ≡ some reply
    → (status : ℕ) × (text : Text) × ((status ≡ 403) ⊎ ((status ≡ 415) ⊎ (status ≡ 503)))
      × (reply ≡ record { status = status; body = error text })
unfolding wrong_type browser
header_gate-refusal lossy headers reply h = elim (header_gate-Outcome lossy headers) [
  | open_gate j z g ↦ absurd (cc)
  | origin t j z g ↦ (403, _, inl refl, some-injective (sym h ∙ g))
  | content_type j g ↦ (415, _, inr (inl refl), some-injective (sym h ∙ g))
]

-- The text up to its first semicolon.
unfoldable pub essence : Text → Text
essence [] = []
essence (c ∷ cs) = let rest = essence cs in if c == b';' then [] else c ∷ rest

first-onto : (c : ℕ) (ws : List Text) → first_or [] (onto c ws) ≡ c ∷ first_or [] ws
unfolding onto
first-onto c [] = refl
first-onto c (w ∷ ws) = refl

first-split : (value : Text) → first_or [] (split (λ c. c == b';') value) ≡ essence value
unfolding split essence
first-split [] = refl
first-split (c ∷ cs) = elim (Bool-cases (c == b';')) [
  | inl e ↦ rw (e) refl
  | inr e ↦ rw (e, first-onto c (split (λ c. c == b';') cs), first-split cs) refl
]

essence-semicolon : (value rest : Text) → essence (value ++ b';' ∷ rest) ≡ essence value
unfolding essence
essence-semicolon [] rest = refl
essence-semicolon (c ∷ cs) rest = rw (essence-semicolon cs rest) refl

unfoldable pub lower : Text → Text
lower t = map to_lower t

∷-head : {x y : ℕ} {xs ys : Text} → ◌≡◌ {A = Text} (x ∷ xs) (y ∷ ys) → x ≡ y
∷-head h = cc

∷-tail : {x y : ℕ} {xs ys : Text} → ◌≡◌ {A = Text} (x ∷ xs) (y ∷ ys) → xs ≡ ys
∷-tail h = cc

eq_ignore_ascii_case_iff : (s t : Text) → (eq_ignore_ascii_case s t ≡ true) ↔ (lower s ≡ lower t)
unfolding eq_ignore_ascii_case lower
eq_ignore_ascii_case_iff [] [] = (λ h. refl, λ h. refl)
eq_ignore_ascii_case_iff [] (y ∷ ys) = (λ h. absurd (cc), λ h. absurd (cc))
eq_ignore_ascii_case_iff (x ∷ xs) [] = (λ h. absurd (cc), λ h. absurd (cc))
eq_ignore_ascii_case_iff (x ∷ xs) (y ∷ ys) =
    let ih = eq_ignore_ascii_case_iff xs ys in
    elim (Bool-cases (to_lower x == to_lower y)) [
      | inl e ↦
          let k = (==_iff (to_lower x) (to_lower y)).0 e in
          rw (e) (λ h. cc (k, ih.0 h), λ h. ih.1 (∷-tail h))
      | inr e ↦
          rw (e)
            (λ h. absurd (cc), λ h. absurd (cc ((==_iff (to_lower x) (to_lower y)).1 (∷-head h))))
    ]

-- A Content-Type passes exactly when the text before its first semicolon, without the white space
-- around it and in lower case, is application/json: parameters and case do not count.
pub is_json_content_type_iff :
    (value : Text)
    → (is_json_content_type (some value) ≡ true)
      ↔ (lower (trim (essence value)) ≡ lit "application/json")
unfolding is_json_content_type media_type lower lit
is_json_content_type_iff value =
    rw (media_type, first-split value)
      (eq_ignore_ascii_case_iff (trim (essence value)) (lit "application/json"))
