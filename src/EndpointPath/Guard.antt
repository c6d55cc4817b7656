-- ===== src/EndpointPath/Guard.antt =====
-- `ambiguity` of src/endpoint_path.rs: what the guard promises about every decode depth.
use nono_cedar_pdp.Base.{
  ℕ, zero, suc, ◌+◌, ◌<◌, ◌≡◌, ◌≢◌, refl, sym, ap, ◌∙◌, subst, ◌⊎◌, inl, inr, true, false, Option,
  none, some, ◌++◌, arith, ◌==◌, if◌then◌else◌, Bool-cases, Option-cases, Text, length, All,
  All-append_left, contains, Result, ok, err, text_eq, text_eq_iff,
}
use nono_cedar_pdp.Utf8.{IsScalar, as_bytes}
use nono_cedar_pdp.EndpointPath.{
  Ambiguity, dot_segment, max_decode_passes, find_dot_segment, percent_decode, scan, routing,
  ambiguity,
}
use nono_cedar_pdp.EndpointPath.Segments.{
  split_first, HasDotSegment, find_dot_segment_sound, find_dot_segment_complete,
}
use nono_cedar_pdp.EndpointPath.Decoding.{undecodable, percent_decode-plain, percent_decode-eq_ok}

-- `Decodes n t d`: an upstream that percent-decodes `t` exactly `n` times reads `d`.
pub data Decodes : ℕ → Text → Text → Type 0 where
  same : {t : Text} → Decodes zero t t
  pass : {n : ℕ} {t u d : Text} → percent_decode t ≡ ok u → Decodes n u d → Decodes (suc n) t d

-- A pass that succeeds on a string with a `%` never returns that string, so the arm of
-- `ambiguity` that stops at a fixed point is never taken.
pub percent_decode-ne_self : (t u : Text) → contains b'%' t ≡ true → percent_decode t ≡ ok u → u ≢ t
percent_decode-ne_self t u c h e =
    omega (arith, (percent_decode-eq_ok t u h).2 c, ap (λ v. length (as_bytes v)) e)

-- What a round of the loop over `t` finds, and with it the result `r` from there on.
pub data Round (n p : ℕ) (t : Text) (r : Option Ambiguity) : Type 0 where
  dotted : (s : Text) → find_dot_segment t ≡ some s → r ≡ some (dot_segment s p) → Round n p t r
  plain : find_dot_segment t ≡ none → contains b'%' t ≡ false → r ≡ none → Round n p t r
  again :
      (u : Text)
      → find_dot_segment t ≡ none
      → percent_decode t ≡ ok u
      → r ≡ scan n (suc p) u
      → Round n p t r
  stuck :
      (e : Ambiguity)
      → find_dot_segment t ≡ none
      → percent_decode t ≡ err e
      → r ≡ (if p == 0 then some e else none)
      → Round n p t r

pub Result-cases :
    (r : Result Ambiguity Text) → ((u : Text) × (r ≡ ok u)) ⊎ ((e : Ambiguity) × (r ≡ err e))
Result-cases (ok u) = inl (u, refl)
Result-cases (err e) = inr (e, refl)

text_eq-ne : (a b : Text) → a ≢ b → text_eq a b ≡ false
text_eq-ne a b h = elim (Bool-cases (text_eq a b)) [
  | inl e ↦ absurd (h ((text_eq_iff a b).0 e))
  | inr e ↦ e
]

scan_again :
    (n p : ℕ) (t u : Text)
    → find_dot_segment t ≡ none
    → contains b'%' t ≡ true
    → percent_decode t ≡ ok u
    → text_eq u t ≡ false
    → scan (suc n) p t ≡ scan n (suc p) u
unfolding scan
scan_again n p t u e c d f = ground arith

pub scan_round : (n p : ℕ) (t : Text) → Round n p t (scan (suc n) p t)
unfolding scan
scan_round n p t = elim (Option-cases (find_dot_segment t)) [
  | inr (s, e) ↦ dotted s e (rw (e, scan))
  | inl e ↦ elim (Bool-cases (contains b'%' t)) [
    | inr c ↦ plain e c (rw (e, scan) (rw c))
    | inl c ↦ elim (Result-cases (percent_decode t)) [
      | inl (u, d) ↦
          again u e d (scan_again n p t u e c d (text_eq-ne u t (percent_decode-ne_self t u c d)))
      | inr (x, d) ↦ stuck x e d (rw (e, scan) (rw c (rw d)))
    ]
  ]
]

scan-none_first : (n p : ℕ) (t : Text) → scan (suc n) p t ≡ none → find_dot_segment t ≡ none
scan-none_first n p t h = elim (scan_round n p t) [
  | dotted w e q ↦ absurd (cc)
  | plain e c q ↦ e
  | again u e g q ↦ e
  | stuck x e g q ↦ e
]

-- What an upstream reads behind `n` passes of its own decoder.
abbrev pub read_after : (Text → Text) → ℕ → Text → Text
read_after decode zero t = t
read_after decode (suc n) t = read_after decode n (decode t)

-- In front of pass `n`, and behind the first, the source's decoder has no reading of what the
-- upstream has got: an escape is malformed there, or the bytes are no UTF-8. `p` passes came before.
abbrev pub HasStray : (Text → Text) → ℕ → ℕ → Text → Type 0
HasStray decode p n t =
    (k : ℕ) × (e : Ambiguity) × (0 < p + k)
    × (k < n)
    × (percent_decode (read_after decode k t) ≡ err e)

if-none_positive : (p : ℕ) (e : Ambiguity) → none ≡ (if p == 0 then some e else none) → 0 < p
if-none_positive zero e h = cc
if-none_positive (suc p) e h = omega arith

-- The decoder gives what the source's own gives, where that one gives something.
module _ (decode : Text → Text)
    (faithful : (t u : Text) → percent_decode t ≡ ok u → decode t ≡ u) where
  read_after_fixed : (n : ℕ) (t : Text) → decode t ≡ t → read_after decode n t ≡ t
  read_after_fixed zero t h = refl
  read_after_fixed (suc n) t h = ap (read_after decode n) h ∙ read_after_fixed n t h

  scan-none_safe :
      (m p : ℕ) (t : Text) (n : ℕ)
      → All IsScalar t
      → scan m p t ≡ none
      → (find_dot_segment (read_after decode n t) ≡ none) ⊎ HasStray decode p n t
  scan-none_safe zero p t n s h = unfold scan in absurd (cc)
  scan-none_safe (suc m) p t zero s h = inl (scan-none_first m p t h)
  scan-none_safe (suc m) p t (suc n) s h = elim (scan_round m p t) [
    | dotted w e q ↦ absurd (cc)
    | plain e c q ↦
        let same = read_after_fixed (suc n) t (faithful t t (percent_decode-plain t s c)) in
        inl (ap find_dot_segment same ∙ e)
    | again u e g q ↦
        let d = faithful t u g in
        elim (scan-none_safe m (suc p) u n (percent_decode-eq_ok t u g).0 (sym q ∙ h)) [
          | inl k ↦ inl (ap (λ x. find_dot_segment (read_after decode n x)) d ∙ k)
          | inr (k, x, l, b, f) ↦ inr (
            suc k,
            x,
            omega arith,
            omega arith,
            ap (λ v. percent_decode (read_after decode k v)) d ∙ f,
          )
        ]
    | stuck x e g q ↦
        let l = if-none_positive p x (sym h ∙ q) in inr (0, x, omega arith, omega arith, g)
  ]

routing-append : (path : Text) → (query : Text) × (path ≡ routing path ++ query)
unfolding routing
routing-append path = let (after, q, z) = split_first (λ c. c == b'?') path path in (after, q)

pub routing-IsScalar : (path : Text) → All IsScalar path → All IsScalar (routing path)
routing-IsScalar path s =
    let (query, q) = routing-append path in
    All-append_left IsScalar (routing path) query (rw q at s)

-- A path that `ambiguity` lets through shows no dot segment to an upstream, whatever the number of
-- passes that its decoder makes over the routing part: `.` and `..`, with `/` or `\` around them and
-- with `;` parameters or without, are nowhere in what it reads. The one exception is an upstream that
-- decodes on, behind the first pass, where the source's own decoder has no reading. The upstream's
-- decoder is any that agrees with the source's where that has one.
pub ambiguity-none_safe :
    (decode : Text → Text) (faithful : (t u : Text) → percent_decode t ≡ ok u → decode t ≡ u)
    (path : Text) (n : ℕ) {s : Text}
    → All IsScalar path
    → ambiguity path ≡ none
    → (¬ HasDotSegment (read_after decode n (routing path)) s) ⊎ HasStray decode 0 n (routing path)
unfolding ambiguity
ambiguity-none_safe decode faithful path n s h =
    elim (scan-none_safe decode faithful (suc max_decode_passes) 0 (routing path) n
      (routing-IsScalar path s) h) [
        | inl k ↦ inl (λ t. find_dot_segment_complete t k)
        | inr k ↦ inr k
      ]

scan-dotted :
    (n p : ℕ) (t : Text) {s : Text} {k : ℕ}
    → scan n p t ≡ some (dot_segment s k)
    → (m : ℕ) × (d : Text) × (k ≡ p + m) × Decodes m t d × (find_dot_segment d ≡ some s)
scan-dotted zero p t h = unfold scan in absurd (cc)
scan-dotted (suc n) p t {s} {k} h = elim (scan_round n p t) [
  | dotted w e q ↦ (0, t, ground arith, same, ground arith)
  | plain e c q ↦ absurd (cc)
  | again u e g q ↦
      let (m, d, r, z, f) = scan-dotted n (suc p) u {s = s} {k = k} (sym q ∙ h) in
      (suc m, d, omega arith, pass g z, f)
  | stuck x e g q ↦ absurd (elim (undecodable t g) [ inl y ↦ ground arith | inr y ↦ ground arith ])
]

-- A path refused for a dot segment has one: at the decode depth that the refusal names, it stands
-- in what an upstream decoding so often reads.
pub ambiguity-dot_segment :
    (path : Text) {s : Text} {n : ℕ}
    → ambiguity path ≡ some (dot_segment s n)
    → (d : Text) × Decodes n (routing path) d × HasDotSegment d s
unfolding ambiguity
ambiguity-dot_segment path {s} h =
    let (m, d, r, z, f) = scan-dotted (suc max_decode_passes) 0 (routing path) h in
    (d, subst (λ k. Decodes k (routing path) d) (omega arith) z, find_dot_segment_sound d s f)
