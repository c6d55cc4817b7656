-- ===== src/Base/Lists.antt =====
-- Lists measured by native numbers, and predicates on lists by recursion.
use Prim.Native.Nat.{ℕ, suc, ◌+◌}
use mathlib.Core.Path.{◌≡◌}
use mathlib.Core.List.{List, [], ◌∷◌, ◌++◌}
use native.Mathlib.Omega.{arith}

module _ {ℓ} {A : Type ℓ} where
  abbrev pub length : List A → ℕ
  length [] = 0
  length (_ ∷ xs) = suc (length xs)

  pub length-append : (xs ys : List A) → length (xs ++ ys) ≡ length xs + length ys
  length-append [] ys = omega arith
  length-append (_ ∷ xs) ys = omega (arith, length-append xs ys)

  -- Every element satisfies `P`.
  abbrev pub All {κ} : (A → Type κ) → List A → Type κ
  All P [] = Unit
  All P (x ∷ xs) = P x × All P xs

  pub All-map {κ} : {P Q : A → Type κ} (xs : List A) → ((x : A) → P x → Q x) → All P xs → All Q xs
  All-map [] f h = tt
  All-map (x ∷ xs) f h = (f x h.0, All-map xs f h.1)

  pub All-append {κ} : (P : A → Type κ) (xs ys : List A) → All P xs → All P ys → All P (xs ++ ys)
  All-append P [] ys _ hy = hy
  All-append P (x ∷ xs) ys hx hy = (hx.0, All-append P xs ys hx.1 hy)

  pub All-append_left {κ} : (P : A → Type κ) (xs ys : List A) → All P (xs ++ ys) → All P xs
  All-append_left P [] ys _ = tt
  All-append_left P (x ∷ xs) ys h = (h.0, All-append_left P xs ys h.1)

  pub All-append_right {κ} : (P : A → Type κ) (xs ys : List A) → All P (xs ++ ys) → All P ys
  All-append_right P [] ys h = h
  All-append_right P (x ∷ xs) ys h = All-append_right P xs ys h.1

  pub All-split {κ} :
      (P : A → Type κ) (xs : List A) (y : A) (ys : List A)
      → All P (xs ++ y ∷ ys)
      → All P xs × P y × All P ys
  All-split P xs y ys h =
      let k = All-append_right P xs (y ∷ ys) h in (All-append_left P xs (y ∷ ys) h, k.0, k.1)

  pub data IsIn (a : A) : List A → Type ℓ where
    here : {xs : List A} → IsIn a (a ∷ xs)
    there : {x : A} {xs : List A} → IsIn a xs → IsIn a (x ∷ xs)

  pub IsIn-append_left : {a : A} (xs ys : List A) → IsIn a xs → IsIn a (xs ++ ys)
  IsIn-append_left [] ys h = elim h [ ]
  IsIn-append_left (x ∷ xs) ys here = here
  IsIn-append_left (x ∷ xs) ys (there h) = there (IsIn-append_left xs ys h)

  pub IsIn-last : (a : A) (xs : List A) → IsIn a (xs ++ a ∷ [])
  IsIn-last a [] = here
  IsIn-last a (x ∷ xs) = there (IsIn-last a xs)

  pub All-IsIn {κ} : (P : A → Type κ) {a : A} (xs : List A) → IsIn a xs → All P xs → P a
  All-IsIn P [] i h = elim i [ ]
  All-IsIn P (x ∷ xs) here h = h.0
  All-IsIn P (x ∷ xs) (there i) h = All-IsIn P xs i h.1
