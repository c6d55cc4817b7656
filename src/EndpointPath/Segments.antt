-- ===== src/EndpointPath/Segments.antt =====
-- `dot_segment` of src/endpoint_path.rs against a description of a dot segment by its place.
use mathlib.Core.List.{Memᴰ}
use nono_cedar_pdp.Base.{
  ℕ, ◌≡◌, ◌≢◌, refl, sym, ap, ◌∙◌, subst, ◌↔◌, ◌⊎◌, inl, inr, Bool, true, false, ◌||◌, none, some,
  List, [], ◌∷◌, ◌++◌, map, append_assoc, arith, ◌==◌, Bool-cases, Text, text_eq_iff,
}
use nono_cedar_pdp.EndpointPath.{
  onto, split, first_or, is_slash, strip_parameters, is_dots, find, find_dot_segment,
}

-- Where a piece may end: at the end of the text, or before a character of `p`.
abbrev pub EndsAt : (ℕ → Bool) → Text → Type 0
EndsAt p [] = Unit
EndsAt p (c ∷ _) = p c ≡ true

-- Where a segment may begin: at the start of the path, or behind a slash of either kind.
abbrev pub BeginsAfter : Text → Type 0
BeginsAfter before =
    (before ≡ [])
    ⊎ ((front : Text) × (slash : ℕ) × (before ≡ front ++ slash ∷ [])
        × ((slash == b'/' || slash == b'\\') ≡ true))

-- `segment` is `.` or `..`, and stands in `path` as a whole segment up to its parameters.
pub record HasDotSegment (path segment : Text) : Type 0 where
  pub before : Text
  pub after : Text
  pub splits : path ≡ before ++ (segment ++ after)
  pub dots : (segment ≡ b'.' ∷ []) ⊎ (segment ≡ b'.' ∷ b'.' ∷ [])
  pub begins : BeginsAfter before
  pub ends : EndsAt (λ c. (c == b'/' || c == b'\\') || c == b';') after

onto-cons : (c : ℕ) (ws : List Text) → (w : Text) × (vs : List Text) × (onto c ws ≡ (c ∷ w) ∷ vs)
unfolding onto
onto-cons c [] = ([], [], refl)
onto-cons c (w ∷ ws) = (w, ws, refl)

split-cons : (p : ℕ → Bool) (t : Text) → (w : Text) × (ws : List Text) × (split p t ≡ w ∷ ws)
unfolding split
split-cons p [] = ([], [], refl)
split-cons p (c ∷ cs) = elim (Bool-cases (p c)) [
  | inl e ↦ ([], split p cs, rw e)
  | inr e ↦ let (w, ws, h) = onto-cons c (split p cs) in (c ∷ w, ws, rw e h)
]

split_head :
    (p : ℕ → Bool) (t : Text) {w : Text} {ws : List Text}
    → split p t ≡ w ∷ ws
    → (after : Text) × (t ≡ w ++ after) × EndsAt p after
unfolding split onto
split_head p [] h = ([], ground arith, tt)
split_head p (c ∷ cs) h = elim (Bool-cases (p c)) [
  | inl e ↦ (c ∷ cs, ground arith, e)
  | inr e ↦
      let (v, vs, g) = split-cons p cs in
      let (after, q, z) = split_head p cs g in (after, ground arith, z)
]

abbrev Follows : (ℕ → Bool) → Text → Text → Type 0
Follows p t v =
    (front : Text) × (slash : ℕ) × (after : Text) × (t ≡ front ++ (slash ∷ (v ++ after)))
    × (p slash ≡ true)
    × EndsAt p after

Follows-cons : (p : ℕ → Bool) (c : ℕ) (t v : Text) → Follows p t v → Follows p (c ∷ t) v
Follows-cons p c t v (front, slash, after, q, s, z) = (c ∷ front, slash, after, ap (◌∷◌ c) q, s, z)

Memᴰ-cons : {v w : Text} {ws : List Text} → Memᴰ v (w ∷ ws) → (v ≡ w) ⊎ Memᴰ v ws
Memᴰ-cons (Memᴰ.head e) = inl e
Memᴰ-cons (Memᴰ.tail m) = inr m

pub split_here :
    (p : ℕ → Bool) (c : ℕ) (cs : Text) → p c ≡ true → split p (c ∷ cs) ≡ [] ∷ split p cs
unfolding split
split_here p c cs e = rw e

pub split_on :
    (p : ℕ → Bool) (c : ℕ) (cs : Text) {w : Text} {ws : List Text}
    → p c ≡ false
    → split p cs ≡ w ∷ ws
    → split p (c ∷ cs) ≡ (c ∷ w) ∷ ws
unfolding split onto
split_on p c cs e g = ground arith

split_tail :
    (p : ℕ → Bool) (t : Text) (w : Text) (ws : List Text) (v : Text)
    → split p t ≡ w ∷ ws
    → Memᴰ v ws
    → Follows p t v
split_tail p [] w [] v h m = elim m [ ]
split_tail p [] w (u ∷ ws) v h m = unfold split in cc
split_tail p (c ∷ cs) w ws v h m =
    let (u, us, g) = split-cons p cs in
    elim (Bool-cases (p c)) [
      | inl e ↦
          let q : ws ≡ u ∷ us = cc (split_here p c cs e) in
          elim (Memᴰ-cons (subst (Memᴰ v) q m)) [
            | inl s ↦
                let (after, r, z) = split_head p cs g in ([], c, after, ap (◌∷◌ c) (rw s r), e, z)
            | inr k ↦ Follows-cons p c cs v (split_tail p cs u us v g k)
          ]
      | inr e ↦
          let q : ws ≡ us = cc (split_on p c cs e g) in
          Follows-cons p c cs v (split_tail p cs u us v g (subst (Memᴰ v) q m))
    ]

pub split_first :
    (p : ℕ → Bool) (d t : Text)
    → (after : Text) × (t ≡ first_or d (split p t) ++ after) × EndsAt p after
split_first p d t =
    let (v, vs, g) = split-cons p t in
    let (after, q, z) = split_head p t g in (after, q ∙ ap (λ u. first_or d u ++ after) (sym g), z)

find-eq_some :
    (p : Text → Bool) (f : Text → Text) (ws : List Text) (s : Text)
    → find p (map f ws) ≡ some s
    → (w : Text) × Memᴰ w ws × (f w ≡ s) × (p s ≡ true)
unfolding find
find-eq_some p f [] s h = absurd (cc)
find-eq_some p f (w ∷ ws) s h = elim (Bool-cases (p (f w))) [
  | inl e ↦ let q : f w ≡ s = ground arith in (w, Memᴰ.head refl, q, rw q at e)
  | inr e ↦ let (v, m, q, r) = find-eq_some p f ws s (ground arith) in (v, Memᴰ.tail m, q, r)
]

find-eq_none :
    (p : Text → Bool) (f : Text → Text) (ws : List Text) (w : Text)
    → find p (map f ws) ≡ none
    → Memᴰ w ws
    → p (f w) ≡ false
unfolding find
find-eq_none p f [] w h m = elim m [ ]
find-eq_none p f (v ∷ ws) w h m =
    let rest : find p (map f ws) ≡ none = ground arith in
    elim (Memᴰ-cons m) [ inl e ↦ rw e (ground arith) | inr k ↦ find-eq_none p f ws w rest k ]

is_dots_iff : (s : Text) → (is_dots s ≡ true) ↔ ((s ≡ b'.' ∷ []) ⊎ (s ≡ b'.' ∷ b'.' ∷ []))
unfolding is_dots
is_dots_iff s = ground (arith, text_eq_iff s (b'.' ∷ []), text_eq_iff s (b'.' ∷ b'.' ∷ []))

weaken-EndsAt :
    (p q : ℕ → Bool) → ((c : ℕ) → p c ≡ true → q c ≡ true) → (t : Text) → EndsAt p t → EndsAt q t
weaken-EndsAt p q f [] h = tt
weaken-EndsAt p q f (c ∷ t) h = f c h

strip_parameters_lem :
    (w : Text) → (tail : Text) × (w ≡ strip_parameters w ++ tail) × EndsAt (λ c. c == b';') tail
unfolding strip_parameters
strip_parameters_lem w = split_first (λ c. c == b';') w w

EndsAt-append :
    (tail after : Text)
    → EndsAt (λ c. c == b';') tail
    → EndsAt is_slash after
    → EndsAt (λ c. is_slash c || c == b';') (tail ++ after)
EndsAt-append [] [] h k = tt
EndsAt-append [] (c ∷ after) h k = ground arith
EndsAt-append (c ∷ tail) after h k = ground arith

piece-HasDotSegment :
    (before w after s : Text)
    → strip_parameters w ≡ s
    → is_dots s ≡ true
    → BeginsAfter before
    → EndsAt is_slash after
    → HasDotSegment (before ++ (w ++ after)) s
piece-HasDotSegment before w after s q d b z =
    let (tail, r, y) = strip_parameters_lem w in
    let r' : w ≡ s ++ tail = r ∙ ap (λ u. u ++ tail) q in
    record {
      before = before;
      after = tail ++ after;
      splits = ap (λ u. before ++ u) (ap (λ u. u ++ after) r' ∙ append_assoc s tail after);
      dots = (is_dots_iff s).0 d;
      begins = b;
      ends = EndsAt-append tail after y z;
    }

-- A segment that `dot_segment` reports stands in the path as described.
pub find_dot_segment_sound :
    (path segment : Text) → find_dot_segment path ≡ some segment → HasDotSegment path segment
unfolding find_dot_segment
find_dot_segment_sound path segment h =
    let (w, m, q, d) = find-eq_some is_dots strip_parameters (split is_slash path) segment h in
    let (u, us, g) = split-cons is_slash path in
    elim (Memᴰ-cons (subst (Memᴰ w) g m)) [
      | inl e ↦
          let (after, r, z) = split_head is_slash path g in
          subst (λ t. HasDotSegment t segment) (ap (λ t. t ++ after) e ∙ sym r)
            (piece-HasDotSegment [] w after segment q d (inl refl) z)
      | inr k ↦
          let (front, slash, after, r, s, z) = split_tail is_slash path u us w g k in
          subst (λ t. HasDotSegment t segment)
            (append_assoc front (slash ∷ []) (w ++ after) ∙ sym r)
            (piece-HasDotSegment (front ++ slash ∷ []) w after segment q d
              (inr (front, slash, refl, s)) z)
    ]

split_behind :
    (p : ℕ → Bool) (front : Text) (s : ℕ) (t u w : Text) (us : List Text)
    → p s ≡ true
    → split p (front ++ (s ∷ t)) ≡ u ∷ us
    → Memᴰ w (split p t)
    → Memᴰ w us
split_behind p [] s t u w us e h m = subst (Memᴰ w) (cc (split_here p s t e)) m
split_behind p (c ∷ front) s t u w us e h m =
    let (v, vs, g) = split-cons p (front ++ (s ∷ t)) in
    let k = split_behind p front s t v w vs e g m in
    elim (Bool-cases (p c)) [
      | inl y ↦
          let q : v ∷ vs ≡ us = cc (split_here p c (front ++ (s ∷ t)) y) in
          subst (Memᴰ w) q (Memᴰ.tail k)
      | inr y ↦ subst (Memᴰ w) (cc (split_on p c (front ++ (s ∷ t)) y g)) k
    ]

split_end :
    (after : Text)
    → EndsAt (λ c. is_slash c || c == b';') after
    → (u : Text) × (us : List Text) × (split is_slash after ≡ u ∷ us) × EndsAt (λ c. c == b';') u
split_end [] z = ([], [], unfold split in refl, tt)
split_end (c ∷ r) z =
    let (v, vs, g) = split-cons is_slash r in
    elim (Bool-cases (is_slash c)) [
      | inl e ↦ ([], split is_slash r, split_here is_slash c r e, tt)
      | inr e ↦ (c ∷ v, vs, split_on is_slash c r e g, ground arith)
    ]

split_parameters :
    (u : Text) → EndsAt (λ c. c == b';') u → (vs : List Text) × (split (λ c. c == b';') u ≡ [] ∷ vs)
split_parameters [] z = ([], unfold split in refl)
split_parameters (c ∷ r) z = (split (λ c. c == b';') r, split_here (λ c. c == b';') c r z)

-- A piece with the segment in front: its stripped form is the segment.
dots_piece :
    (segment after : Text)
    → (segment ≡ b'.' ∷ []) ⊎ (segment ≡ b'.' ∷ b'.' ∷ [])
    → EndsAt (λ c. is_slash c || c == b';') after
    → (w : Text) × Memᴰ w (split is_slash (segment ++ after)) × (strip_parameters w ≡ segment)
unfolding strip_parameters
dots_piece segment after d z =
    let (u, us, g, y) = split_end after z in
    let (vs, h) = split_parameters u y in
    let one = split_on is_slash b'.' after refl g in
    let one' = split_on (λ c. c == b';') b'.' u refl h in
    elim d [
      | inl e ↦ rw e (b'.' ∷ u, rw one (Memᴰ.head refl), ap (first_or (b'.' ∷ u)) one')
      | inr e ↦
          let both = split_on is_slash b'.' (b'.' ∷ after) refl one in
          let both' = split_on (λ c. c == b';') b'.' (b'.' ∷ u) refl one' in
          rw e (b'.' ∷ b'.' ∷ u, rw both (Memᴰ.head refl), ap (first_or (b'.' ∷ b'.' ∷ u)) both')
    ]

dots_behind :
    (before rest w : Text)
    → BeginsAfter before
    → Memᴰ w (split is_slash rest)
    → Memᴰ w (split is_slash (before ++ rest))
dots_behind before rest w (inl e) m = rw e m
dots_behind before rest w (inr (front, slash, e, s)) m =
    let (u, us, g) = split-cons is_slash (front ++ (slash ∷ rest)) in
    rw (e, append_assoc) (rw g (Memᴰ.tail (split_behind is_slash front slash rest u w us s g m)))

-- A path with a dot segment is never passed by `dot_segment`.
pub find_dot_segment_complete :
    {path segment : Text} → HasDotSegment path segment → find_dot_segment path ≢ none
unfolding find_dot_segment
find_dot_segment_complete {path} {segment} d h =
    let (w, m, q) = dots_piece segment d.after d.dots d.ends in
    let k = dots_behind d.before (segment ++ d.after) w d.begins m in
    let no = find-eq_none is_dots strip_parameters (split is_slash path) w h (rw d.splits k) in
    cc (no, ap is_dots q, (is_dots_iff segment).1 d.dots)
