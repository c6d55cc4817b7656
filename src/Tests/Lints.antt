-- ===== src/Tests/Lints.antt =====
-- The lints at a concrete policy.
use nono_cedar_pdp.Base.{
  ℕ, ◌≡◌, ◌<◌, ◌+◌, suc, refl, subst, inl, inr, Bool-cases, Option, none, some, List, [], ◌∷◌, ◌++◌,
  ◌⊎◌, All, All-map, arith, Text, lit, text_eq, if◌then◌else◌,
}
use nono_cedar_pdp.Json.{JsonReader, IsSized}
use nono_cedar_pdp.Lint.{
  is_wildcard, literal, position, get_elem?, ends_token, pins_a_token, lint_arg_matching,
}
use nono_cedar_pdp.Lint.Walks.{Ends, lint_arg_matching-Ends}
use nono_cedar_pdp.Lint.Pins.{end, char, wildcard, literal_run, pins_a_token_sound}
use nono_cedar_pdp.Tests.Toy.{toy, ToyPolicy}

-- A small form of JSON's texts, arrays and objects.
data Tree : Type 0 where
  text : Text → Tree
  nil : Tree
  cons : Tree → Tree → Tree
  object : Tree
  field : Text → Tree → Tree → Tree

unfoldable items : Tree → List Tree
items (cons x xs) = x ∷ items xs
items _ = []

unfoldable entries : Tree → List (Text × Tree)
entries (field k v rest) = (k, v) ∷ entries rest
entries _ = []

unfoldable get : Tree → Text → Option Tree
get (field k v rest) key = let more = get rest key in if text_eq k key then some v else more
get _ key = none

unfoldable as_str : Tree → Option Text
as_str (text t) = some t
as_str _ = none

unfoldable as_array : Tree → Option (List Tree)
unfolding items
as_array nil = some []
as_array (cons x xs) = some (x ∷ items xs)
as_array _ = none

unfoldable as_object : Tree → Option (List (Text × Tree))
unfolding entries
as_object object = some []
as_object (field k v rest) = some ((k, v) ∷ entries rest)
as_object _ = none

unfoldable size : Tree → ℕ
size (text t) = 0
size nil = 0
size object = 0
size (cons x xs) = suc (size x + size xs)
size (field k v rest) = suc (size v + size rest)

abbrev json : JsonReader
json = record {
  Value = Tree;
  from_slice = λ bs. some (text bs);
  get = get;
  as_str = as_str;
  as_array = as_array;
  as_object = as_object;
}

items-size : (t : Tree) → All (λ w. size w < size t) (items t)
unfolding items size
items-size (text t) = tt
items-size nil = tt
items-size object = tt
items-size (field k v rest) = tt
items-size (cons x xs) = (omega arith, All-map (items xs) (λ w h. omega arith) (items-size xs))

entries-size : (t : Tree) → All (λ e. size e.1 < size t) (entries t)
unfolding entries size
entries-size (text t) = tt
entries-size nil = tt
entries-size object = tt
entries-size (cons x xs) = tt
entries-size (field k v rest) =
    (omega arith, All-map (entries rest) (λ w h. omega arith) (entries-size rest))

some_injective : {A : Type 0} {a b : A} → ◌≡◌ {A = Option A} (some a) (some b) → a ≡ b
some_injective h = cc

get-size : (t w : Tree) (key : Text) → get t key ≡ some w → size w < size t
unfolding get size
get-size (text t) w key h = absurd (cc)
get-size nil w key h = absurd (cc)
get-size object w key h = absurd (cc)
get-size (cons x xs) w key h = absurd (cc)
get-size (field k v rest) w key h = elim (Bool-cases (text_eq k key)) [
  | inr e ↦ let below = get-size rest w key (rw (get, e) at h) in omega arith
  | inl e ↦
      subst (λ x. size x < suc (size v + size rest)) (some_injective (rw (get, e) at h))
        (omega arith)
]

item-size : (v : Tree) (xs : List Tree) → as_array v ≡ some xs → All (λ w. size w < size v) xs
unfolding as_array
item-size (text t) xs h = absurd (cc)
item-size object xs h = absurd (cc)
item-size (field k v rest) xs h = absurd (cc)
item-size nil xs h = subst (All (λ w. size w < size nil)) (some_injective h) tt
item-size (cons y ys) xs h =
    subst (All (λ w. size w < size (cons y ys))) (some_injective h) (items-size (cons y ys))

entry-size :
    (v : Tree) (xs : List (Text × Tree)) → as_object v ≡ some xs → All (λ e. size e.1 < size v) xs
unfolding as_object
entry-size (text t) xs h = absurd (cc)
entry-size nil xs h = absurd (cc)
entry-size (cons y ys) xs h = absurd (cc)
entry-size object xs h = subst (All (λ e. size e.1 < size object)) (some_injective h) tt
entry-size (field k v rest) xs h =
    subst (All (λ e. size e.1 < size (field k v rest))) (some_injective h)
      (entries-size (field k v rest))

sized : IsSized json
sized = record { size = size; item = item-size; entry = entry-size; member = get-size }

abbrev toy_set : List ToyPolicy
toy_set = record { name = []; id = lit "x" } ∷ []

abbrev obj : List (Text × Tree) → Tree
obj [] = object
obj ((k, v) ∷ rest) = field k v (obj rest)

-- resource.argv_tail, and resource.argv_tail like "a *".
abbrev tail_read : Tree
tail_read = obj ((lit ".", obj ((lit "attr", text (lit "argv_tail")) ∷ [])) ∷ [])

abbrev character : ℕ → Tree
character n = obj ((lit "Literal", text (n ∷ [])) ∷ [])

abbrev pattern' : Tree
pattern' = cons (character b'a') (cons (character b' ') (cons (text (lit "Wildcard")) nil))

abbrev loose : Tree
loose = cons (character b'a') (cons (text (lit "Wildcard")) nil)

abbrev like : Tree → Tree
like p = obj ((lit "like", obj ((lit "left", tail_read) ∷ (lit "pattern", p) ∷ [])) ∷ [])

lint_arg_matching-Ends_example :
    Ends (lint_arg_matching toy json (λ p. some (like loose)) (λ t. t) (λ v. suc (size v)) toy_set)
unfolding sized size
lint_arg_matching-Ends_example =
    lint_arg_matching-Ends toy json sized (λ p. some (like loose)) (λ t. t) (λ v. suc (size v))
      toy_set (λ v. omega arith)

abbrev elements : List Tree
elements = character b'a' ∷ character b' ' ∷ text (lit "Wildcard") ∷ []

abbrev glob : List (Option ℕ)
glob = some b'a' ∷ some b' ' ∷ none ∷ []

-- "a *" matches "a bc", of which the first word is the glob's.
pins_a_token_sound_example :
    (lit "a bc" ≡ literal_run glob)
    ⊎ ((front : Text) × (rest : Text) × (literal_run glob ≡ front ++ b' ' ∷ [])
        × (lit "a bc" ≡ front ++ (b' ' ∷ rest)))
unfolding pins_a_token as_array items position is_wildcard ends_token get_elem? literal get as_str
    lit text_eq
pins_a_token_sound_example =
    pins_a_token_sound json pattern' elements glob (lit "a bc") refl refl
      ((refl, refl), ((refl, refl), (refl, tt))) (char (char (wildcard (lit "bc") end)))
