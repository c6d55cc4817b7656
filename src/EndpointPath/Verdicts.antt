-- ===== src/EndpointPath/Verdicts.antt =====
-- `ambiguity` of src/endpoint_path.rs: when each of its verdicts is given.
use nono_cedar_pdp.Base.{
  ℕ, zero, suc, ◌≡◌, refl, sym, ap, ◌∙◌, ◌↔◌, inl, inr, Bool, true, false, none, some, [], ◌∷◌,
  ◌++◌, arith, ◌==◌, Option-cases, Text, All, contains, err,
}
use nono_cedar_pdp.Utf8.{IsScalar}
use nono_cedar_pdp.EndpointPath.{
  Ambiguity, nested_too_deep, max_decode_passes, split, first_or, find_dot_segment, percent_decode,
  scan, routing, ambiguity,
}
use nono_cedar_pdp.EndpointPath.Segments.{
  split_here, split_on, HasDotSegment, find_dot_segment_sound, find_dot_segment_complete,
}
use nono_cedar_pdp.EndpointPath.Decoding.{Undecodable, undecodable, percent_decode-plain}
use nono_cedar_pdp.EndpointPath.Guard.{
  Decodes, same, pass, routing-IsScalar, dotted, plain, again, stuck, scan_round,
}

scan-Undecodable :
    (n p : ℕ) (t : Text) {e : Ambiguity}
    → Undecodable e
    → scan n p t ≡ some e
    → (p ≡ 0) × (percent_decode t ≡ err e) × (find_dot_segment t ≡ none)
scan-Undecodable zero p t w h = unfold scan in ground arith
scan-Undecodable (suc n) p t {e} w h = elim (scan_round n p t) [
  | dotted s f q ↦ absurd (ground arith)
  | plain f c q ↦ absurd (cc)
  | again u f g q ↦
      absurd (let r = scan-Undecodable n (suc p) u {e = e} w (sym q ∙ h) in omega (arith, r.0))
  | stuck x f g q ↦ ground arith
]

find_dot_segment-none :
    (t : Text) → (¬ ((s : Text) × HasDotSegment t s)) → find_dot_segment t ≡ none
find_dot_segment-none t h = elim (Option-cases (find_dot_segment t)) [
  | inl e ↦ e
  | inr (s, e) ↦ absurd (h (s, find_dot_segment_sound t s e))
]

scan_first_Undecodable :
    (n : ℕ) (t : Text) (e : Ambiguity)
    → All IsScalar t
    → percent_decode t ≡ err e
    → find_dot_segment t ≡ none
    → scan (suc n) 0 t ≡ some e
scan_first_Undecodable n t e s g f = elim (scan_round n 0 t) [
  | dotted w k q ↦ absurd (cc)
  | plain k c q ↦ absurd (cc (percent_decode-plain t s c))
  | again u k d q ↦ absurd (cc)
  | stuck x k d q ↦ ground arith
]

-- A path is refused as malformed, or as not UTF-8, exactly when its first decode pass fails so and
-- it has no dot segment as sent.
pub ambiguity-Undecodable_iff :
    (path : Text) (e : Ambiguity)
    → All IsScalar path
    → Undecodable e
    → (ambiguity path ≡ some e) ↔ (
        (percent_decode (routing path) ≡ err e) × (¬ ((s : Text) × HasDotSegment (routing path) s)))
unfolding ambiguity
ambiguity-Undecodable_iff path e s w = (
  λ h.
      let (z, g, f) = scan-Undecodable (suc max_decode_passes) 0 (routing path) {e = e} w h in
      (g, λ (t, d). find_dot_segment_complete d f),
  λ (g, d).
      scan_first_Undecodable max_decode_passes (routing path) e (routing-IsScalar path s) g
        (find_dot_segment-none (routing path) d),
)

scan-nested : (n p : ℕ) (t : Text) → scan n p t ≡ some nested_too_deep → (d : Text) × Decodes n t d
scan-nested zero p t h = (t, same)
scan-nested (suc n) p t h = elim (scan_round n p t) [
  | dotted s f q ↦ absurd (ground arith)
  | plain f c q ↦ absurd (cc)
  | again u f g q ↦ let (d, r) = scan-nested n (suc p) u (sym q ∙ h) in (d, pass g r)
  | stuck x f g q ↦ absurd (elim (undecodable t g) [ inl y ↦ ground arith | inr y ↦ ground arith ])
]

-- A path is refused as nested too deep only if it decodes one time more than the source follows.
pub ambiguity-nested :
    (path : Text)
    → ambiguity path ≡ some nested_too_deep
    → (d : Text) × Decodes (suc max_decode_passes) (routing path) d
unfolding ambiguity
ambiguity-nested path h = scan-nested (suc max_decode_passes) 0 (routing path) h

scan-plain :
    (n p : ℕ) (t : Text)
    → contains b'%' t ≡ false
    → find_dot_segment t ≡ none
    → scan (suc n) p t ≡ none
unfolding scan
scan-plain n p t c f = ground arith

-- A path with no escape and no dot segment in its routing part is let through.
pub ambiguity-plain :
    (path : Text)
    → contains b'%' (routing path) ≡ false
    → (¬ ((s : Text) × HasDotSegment (routing path) s))
    → ambiguity path ≡ none
unfolding ambiguity
ambiguity-plain path c h =
    scan-plain max_decode_passes 0 (routing path) c (find_dot_segment-none (routing path) h)

split-one : (p : ℕ → Bool) (t : Text) → All (λ c. p c ≡ false) t → split p t ≡ t ∷ []
split-one p [] h = unfold split in refl
split-one p (c ∷ t) h = split_on p c t h.0 (split-one p t h.1)

split-first :
    (p : ℕ → Bool) (t : Text) (s : ℕ) (u : Text)
    → All (λ c. p c ≡ false) t
    → p s ≡ true
    → split p (t ++ (s ∷ u)) ≡ t ∷ split p u
split-first p [] s u h e = split_here p s u e
split-first p (c ∷ t) s u h e = split_on p c (t ++ (s ∷ u)) h.0 (split-first p t s u h.1 e)

contains-All : (k : ℕ) (t : Text) → contains k t ≡ false → All (λ c. (c == k) ≡ false) t
unfolding contains
contains-All k [] h = tt
contains-All k (c ∷ t) h = (ground arith, contains-All k t (ground arith))

-- The query is no part of what is judged: from the first `?` on nothing counts.
pub ambiguity-query :
    (path query : Text)
    → contains b'?' path ≡ false
    → ambiguity (path ++ (b'?' ∷ query)) ≡ ambiguity path
unfolding ambiguity
ambiguity-query path query h =
    let free = contains-All b'?' path h in
    ap (scan (suc max_decode_passes) 0) (
      unfold routing in
      ap (first_or (path ++ (b'?' ∷ query)))
        (split-first (λ c. c == b'?') path b'?' query free refl)
      ∙ sym (ap (first_or path) (split-one (λ c. c == b'?') path free)))
