-- ===== src/Lint/Walks.antt =====
-- The walks of src/cedar/engine.rs over a policy's JSON form end: enough fuel gives a result.
use nono_cedar_pdp.Base.{
  ℕ, zero, suc, ◌+◌, ◌<◌, ◌≡◌, refl, subst, inl, inr, Bool, true, false, Option, none, some,
  Option-cases, Bool-cases, List, [], ◌∷◌, ◌++◌, map, All, All-map, arith, if◌then◌else◌, Text, lit,
  contains, ◌&&◌,
}
use nono_cedar_pdp.Adapter.{and_then}
use nono_cedar_pdp.Json.{JsonReader, IsSized}
use nono_cedar_pdp.Cedar.{Cedar}
use nono_cedar_pdp.Lint.{
  gather, collect, retain, flatten, holds, is_attr, is_argv_tail, tail_like, tail_equality,
  pins_a_token, unpinned, singleton, string_literals, tested, is_membership, reported,
  path_literals, lint_policy, lint_arg_matching, tail_lints, args_text,
}

-- There is a result.
abbrev pub Ends {ℓ} : {A : Type ℓ} → Option A → Type ℓ
Ends {A = A} o = (a : A) × (o ≡ some a)

gather-Ends :
    {A : Type 0} (f : A → Option ℕ) (xs : List A) → All (λ x. Ends (f x)) xs → Ends (gather f xs)
unfolding gather
gather-Ends f [] h = (0, refl)
gather-Ends f (x ∷ xs) h =
    let (n, e) = h.0 in let (m, d) = gather-Ends f xs h.1 in (n + m, rw (e, d) refl)

collect-Ends :
    {A B : Type 0} (f : A → Option (List B)) (xs : List A)
    → All (λ x. Ends (f x)) xs
    → Ends (collect f xs)
unfolding collect
collect-Ends f [] h = ([], refl)
collect-Ends f (x ∷ xs) h =
    let (n, e) = h.0 in let (m, d) = collect-Ends f xs h.1 in (n ++ m, rw (e, d) refl)

All-over :
    {A B : Type 0} (P : B → Type 0) (f : A → B) (xs : List A)
    → All (λ x. P (f x)) xs
    → All P (map f xs)
All-over P f [] h = tt
All-over P f (x ∷ xs) h = (h.0, All-over P f xs h.1)

retain-All :
    {A : Type 0} (P : A → Type 0) (p : A → Bool) (xs : List A) → All P xs → All P (retain p xs)
unfolding retain
retain-All P p [] h = tt
retain-All P p (x ∷ xs) h = elim (Bool-cases (p x)) [
  | inl e ↦ rw e (h.0, retain-All P p xs h.1)
  | inr e ↦ rw e (retain-All P p xs h.1)
]

none_ne : {A : Type 0} {a : A} → none ≡ some a → ⊥
none_ne h = cc

if_then :
    {A : Type 0} (b : Bool) {x : Option A} {y : A} → (if b then x else none) ≡ some y → x ≡ some y
if_then true h = h
if_then false h = absurd (none_ne h)

module _ (json : JsonReader) (sized : IsSized json) where
  open json use {Value, get, as_str, as_array, as_object}
  open sized use {size, item, entry, member}

  member_small :
      (v q : Value) (key : Text) (rest : List Value)
      → size q < size v
      → All (λ w. size w < size v) rest
      → All (λ w. size w < size v) (flatten (get q key ∷ []) ++ rest)
  unfolding flatten
  member_small v q key rest h k = elim (Option-cases (get q key)) [
    | inl e ↦ rw (e) k
    | inr (w, e) ↦ rw (e) (let m = member q w key e in omega arith, k)
  ]

  flatten_split :
      (a b : Option Value) → flatten (a ∷ b ∷ []) ≡ flatten (a ∷ []) ++ (flatten (b ∷ []) ++ [])
  unfolding flatten
  flatten_split none none = refl
  flatten_split none (some y) = refl
  flatten_split (some x) none = refl
  flatten_split (some x) (some y) = refl

  if_some : {A : Type 0} (b : Bool) {x y : A} → (if b then some x else none) ≡ some y → x ≡ y
  if_some true h = cc
  if_some false h = absurd (cc)

  -- The sides of an equality are smaller than the node.
  pub tail_equality_small :
      (v : Value) (sides : List Value)
      → tail_equality json v ≡ some sides
      → All (λ w. size w < size v) sides
  unfolding tail_equality
  tail_equality_small v sides h = elim (Option-cases (get v (lit "=="))) [
    | inl e ↦ absurd (none_ne (rw (tail_equality, e) at h))
    | inr (q, e) ↦
        let m = member v q (lit "==") e in
        let k = if_some _ (rw (tail_equality, e) at h) in
        subst (All (λ w. size w < size v)) k (
          rw (flatten_split (get q (lit "left")) (get q (lit "right")))
            (member_small v q (lit "left") _ m (member_small v q (lit "right") [] m tt)))
  ]

  pub unpinned-Ends : (fuel : ℕ) (v : Value) → size v < fuel → Ends (unpinned json fuel v)
  unfolding unpinned
  unpinned-Ends zero v h = absurd (omega arith)
  unpinned-Ends (suc fuel) v h = elim (Option-cases (as_object v)) [
    | inl e ↦ elim (Option-cases (as_array v)) [
      | inl d ↦ (0, rw (unpinned, e, d) refl)
      | inr (items, d) ↦
          rw (unpinned, e, d)
            (gather-Ends (unpinned json fuel) items
              (All-map items (λ w k. unpinned-Ends fuel w (omega arith)) (item v items d)))
    ]
    | inr (entries, e) ↦ elim (Option-cases (tail_like json v)) [
      | inr (like, d) ↦ (
        if holds (pins_a_token json) (get like (lit "pattern")) then 0 else 1,
        rw (unpinned, e, d) refl,
      )
      | inl d ↦ elim (Option-cases (tail_equality json v)) [
        | inr (sides, q) ↦
            rw (unpinned, e, d, q)
              (gather-Ends (unpinned json fuel) _ (
                retain-All _ _ sides (
                  All-map sides (λ w k. unpinned-Ends fuel w (omega arith))
                    (tail_equality_small v sides q))))
        | inl q ↦ elim (Bool-cases (is_argv_tail json v)) [
          | inl b ↦ (1, rw (unpinned, e, d, q, b) refl)
          | inr b ↦
              rw (unpinned, e, d, q, b)
                (gather-Ends (unpinned json fuel) _ (
                  All-over _ (λ x. x.1) entries
                    (All-map entries (λ x k. unpinned-Ends fuel x.1 (omega arith))
                      (entry v entries e))))
        ]
      ]
    ]
  ]

  pub string_literals-Ends :
      (fuel : ℕ) (v : Value) → size v < fuel → Ends (string_literals json fuel v)
  unfolding string_literals
  string_literals-Ends zero v h = absurd (omega arith)
  string_literals-Ends (suc fuel) v h = elim (Option-cases (get v (lit "Set"))) [
    | inl e ↦ (singleton (and_then (get v (lit "Value")) as_str), rw (string_literals, e) refl)
    | inr (s, e) ↦ elim (Option-cases (as_array s)) [
      | inl d ↦ (singleton (and_then (get v (lit "Value")) as_str), rw (string_literals, e, d) refl)
      | inr (items, d) ↦
          let m = member v s (lit "Set") e in
          let (ts, k) =
            collect-Ends (string_literals json fuel) items
              (All-map items (λ w q. string_literals-Ends fuel w (omega arith)) (item s items d)) in
          (
            singleton (and_then (get v (lit "Value")) as_str) ++ ts,
            rw (string_literals, e, d, k) refl,
          )
    ]
  ]

  reported-Ends :
      (fuel : ℕ) (key : Text) (v : Value) → size v < fuel → Ends (reported json fuel key v)
  unfolding reported tested
  reported-Ends fuel key v h = elim (Option-cases (tested json key v)) [
    | inl e ↦ ([], rw (reported, e) refl)
    | inr (right, e) ↦
        let m = member v right (lit "right") (
          if_then (is_membership key && holds (is_attr json (lit "args")) (get v (lit "left")))
            e) in
        let (ts, k) = string_literals-Ends fuel right (omega arith) in
        (retain (contains b'/') ts, rw (reported, e, k) refl)
  ]

  pub path_literals-Ends : (fuel : ℕ) (v : Value) → size v < fuel → Ends (path_literals json fuel v)
  unfolding path_literals
  path_literals-Ends zero v h = absurd (omega arith)
  path_literals-Ends (suc fuel) v h = elim (Option-cases (as_object v)) [
    | inl e ↦ elim (Option-cases (as_array v)) [
      | inl d ↦ ([], rw (path_literals, e, d) refl)
      | inr (items, d) ↦
          rw (path_literals, e, d)
            (collect-Ends (path_literals json fuel) items
              (All-map items (λ w k. path_literals-Ends fuel w (omega arith)) (item v items d)))
    ]
    | inr (entries, e) ↦
        rw (path_literals, e)
          (collect-Ends _ entries (
            All-map entries
              (λ x k.
                let (own, p) = reported-Ends fuel x.0 x.1 (omega arith) in
                let (below, q) = path_literals-Ends fuel x.1 (omega arith) in
                (own ++ below, rw (p, q) refl))
              (entry v entries e)))
  ]

module _ (c : Cedar) (json : JsonReader) (sized : IsSized json)
    (to_json : c.Policy → Option json.Value) (debug : Text → Text) where
  open c use {Policy, PolicySet, policies, policy_id, is_permit}
  open json use {Value}
  open sized use {size}

  lint_policy-Ends :
      (fuel : Value → ℕ) (policy : Policy)
      → ((v : Value) → size v < fuel v)
      → Ends (lint_policy c json to_json debug fuel policy)
  unfolding lint_policy
  lint_policy-Ends fuel policy h = elim (Option-cases (to_json policy)) [
    | inl e ↦ ([], rw (lint_policy, e) refl)
    | inr (v, e) ↦
        let (n, p) = unpinned-Ends json sized (fuel v) v (h v) in
        let (ls, q) = path_literals-Ends json sized (fuel v) v (h v) in
        (
          tail_lints (is_permit policy) (policy_id policy) n
              ++ map (args_text debug (policy_id policy)) ls,
          rw (lint_policy, e, p, q) refl,
        )
  ]

  -- The lints of any policy set come to an end: with fuel above the size of each policy's JSON form
  -- there is a result.
  pub lint_arg_matching-Ends :
      (fuel : Value → ℕ) (set : PolicySet)
      → ((v : Value) → size v < fuel v)
      → Ends (lint_arg_matching c json to_json debug fuel set)
  unfolding lint_arg_matching
  lint_arg_matching-Ends fuel set h = all_end (policies set)
    where
      each : (ps : List Policy) → All (λ p. Ends (lint_policy c json to_json debug fuel p)) ps
      each [] = tt
      each (p ∷ ps) = (lint_policy-Ends fuel p h, each ps)

      all_end : (ps : List Policy) → Ends (collect (lint_policy c json to_json debug fuel) ps)
      all_end ps = collect-Ends (lint_policy c json to_json debug fuel) ps (each ps)
