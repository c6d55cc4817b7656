-- ===== src/Lint.antt =====
-- `lint_arg_matching` of src/cedar/engine.rs: what the operator is told of a policy's argument tests.
-- The walks over a policy's JSON form are on fuel, and `none` means that it ran out.
pub mod Walks
pub mod Pins
use nono_cedar_pdp.Base.{
  ℕ, zero, suc, ◌+◌, ◌-◌, Bool, true, false, not, ◌||◌, ◌&&◌, Option, none, some, List, [], ◌∷◌,
  ◌++◌, map, ◌==◌, if◌then◌else◌, Text, lit, text_eq, contains,
}
use nono_cedar_pdp.Adapter.{and_then, map_some}
use nono_cedar_pdp.Json.{JsonReader}
use nono_cedar_pdp.Cedar.{Cedar}

abbrev pub is_text : Text → Option Text → Bool
is_text t none = false
is_text t (some s) = text_eq s t

-- The results of a walk over what a value holds, added up; any that ran out is one for all.
unfoldable pub gather : {A : Type 0} → (A → Option ℕ) → List A → Option ℕ
gather f [] = some 0
gather f (x ∷ xs) = and_then (f x) (λ n. map_some (λ m. n + m) (gather f xs))

unfoldable pub collect : {A B : Type 0} → (A → Option (List B)) → List A → Option (List B)
collect f [] = some []
collect f (x ∷ xs) = and_then (f x) (λ bs. map_some (λ cs. bs ++ cs) (collect f xs))

-- `Iterator::position`
unfoldable pub position : {A : Type 0} → (A → Bool) → List A → Option ℕ
position p [] = none
position p (x ∷ xs) = let rest = position p xs in if p x then some 0 else map_some suc rest

unfoldable pub get_elem? : {A : Type 0} → List A → ℕ → Option A
get_elem? [] n = none
get_elem? (x ∷ xs) zero = some x
get_elem? (x ∷ xs) (suc n) = get_elem? xs n

-- `Iterator::filter`
unfoldable pub retain : {A : Type 0} → (A → Bool) → List A → List A
retain p [] = []
retain p (x ∷ xs) = let rest = retain p xs in if p x then x ∷ rest else rest

unfoldable pub any : {A : Type 0} → (A → Bool) → List A → Bool
any p [] = false
any p (x ∷ xs) = p x || any p xs

-- `sides.iter().flatten()`
unfoldable pub flatten : {A : Type 0} → List (Option A) → List A
flatten [] = []
flatten (none ∷ rest) = flatten rest
flatten (some a ∷ rest) = a ∷ flatten rest

abbrev pub holds : {A : Type 0} → (A → Bool) → Option A → Bool
holds p none = false
holds p (some v) = p v

abbrev pub singleton : Option Text → List Text
singleton none = []
singleton (some t) = t ∷ []

abbrev pub is_membership : Text → Bool
is_membership key =
    text_eq key (lit "contains")
    || text_eq key (lit "containsAny")
    || text_eq key (lit "containsAll")

module _ (json : JsonReader) where
  open json use {Value, get, as_str, as_array, as_object}

  -- `is_argv_tail` and `is_args_attr`: an access of the attribute.
  unfoldable pub is_attr : Text → Value → Bool
  is_attr name node =
      is_text name (and_then (and_then (get node (lit ".")) (λ a. get a (lit "attr"))) as_str)

  unfoldable pub is_argv_tail : Value → Bool
  unfolding is_attr
  is_argv_tail node = is_attr (lit "argv_tail") node

  unfoldable pub is_wildcard : Value → Bool
  is_wildcard e = is_text (lit "Wildcard") (as_str e)

  unfoldable pub literal : Value → Option Text
  literal e = and_then (get e (lit "Literal")) as_str

  -- The arm behind the first wildcard: the element before it is the separating space.
  unfoldable pub ends_token : List Value → Option ℕ → Bool
  ends_token elements none = true
  ends_token elements (some zero) = false
  ends_token elements (some (suc before)) =
      is_text (lit " ") (and_then (get_elem? elements before) literal)

  -- `pins_a_token`
  unfoldable pub pins_a_token : Value → Bool
  unfolding ends_token position get_elem? is_wildcard literal
  pins_a_token pattern' = elim (as_array pattern') [
    | none ↦ false
    | some elements ↦ ends_token elements (position is_wildcard elements)
  ]

  -- The `like` of a node whose left side is a read of the attribute.
  unfoldable pub tail_like : Value → Option Value
  unfolding is_argv_tail
  tail_like node = elim (get node (lit "like")) [
    | none ↦ none
    | some like ↦ if holds is_argv_tail (get like (lit "left")) then some like else none
  ]

  -- The sides of a node's `==` of which one is a read of the attribute.
  unfoldable pub tail_equality : Value → Option (List Value)
  unfolding is_argv_tail flatten any
  tail_equality node = elim (get node (lit "==")) [
    | none ↦ none
    | some equality ↦
        let sides = flatten (get equality (lit "left") ∷ get equality (lit "right") ∷ []) in
        if any is_argv_tail sides then some sides else none
  ]

  -- `walk` of `unpinned_argv_tail_reads`
  unfoldable pub unpinned : ℕ → Value → Option ℕ
  unfolding tail_like tail_equality is_argv_tail pins_a_token retain
  unpinned zero node = none
  unpinned (suc fuel) node = elim (as_object node) [
    | none ↦ elim (as_array node) [ none ↦ some 0 | some items ↦ gather (unpinned fuel) items ]
    | some entries ↦ elim (tail_like node) [
      | some like ↦ some (if holds pins_a_token (get like (lit "pattern")) then 0 else 1)
      | none ↦ elim (tail_equality node) [
        | some sides ↦ gather (unpinned fuel) (retain (λ s. not (is_argv_tail s)) sides)
        | none ↦ elim (is_argv_tail node) [
          | true ↦ some 1
          | false ↦ gather (unpinned fuel) (map (λ e. e.1) entries)
        ]
      ]
    ]
  ]

  -- `string_literals`
  unfoldable pub string_literals : ℕ → Value → Option (List Text)
  string_literals zero node = none
  string_literals (suc fuel) node =
      let own = singleton (and_then (get node (lit "Value")) as_str) in
      elim (and_then (get node (lit "Set")) as_array) [
        | none ↦ some own
        | some items ↦ map_some (λ ts. own ++ ts) (collect (string_literals fuel) items)
      ]

  -- The right side of a membership test whose left side is `args`.
  unfoldable pub tested : Text → Value → Option Value
  unfolding is_attr
  tested key value =
      if is_membership key && holds (is_attr (lit "args")) (get value (lit "left"))
      then get value (lit "right")
      else none

  -- What one entry of an object reports itself.
  unfoldable pub reported : ℕ → Text → Value → Option (List Text)
  unfolding tested
  reported fuel key value = elim (tested key value) [
    | none ↦ some []
    | some right ↦ map_some (retain (contains b'/')) (string_literals fuel right)
  ]

  -- `walk` of `args_membership_path_literals`
  unfoldable pub path_literals : ℕ → Value → Option (List Text)
  unfolding reported
  path_literals zero node = none
  path_literals (suc fuel) node = elim (as_object node) [
    | none ↦ elim (as_array node) [
      | none ↦ some []
      | some items ↦ collect (path_literals fuel) items
    ]
    | some entries ↦
        collect
          (λ e.
            and_then (reported fuel e.0 e.1)
              (λ own. map_some (λ below. own ++ below) (path_literals fuel e.1)))
          entries
  ]

abbrev pub tail_text : Text → Text
tail_text id =
    lit "policy "
    ++ (id
        ++ lit
            " is a permit whose resource.argv_tail test does not pin a whole token; a glob that starts with a wildcard over-matches text inside a single argument, and one that stops mid-token (like \"diff*\") also matches a longer subcommand (difftool), so either belongs in forbid only — anchor the pattern and end it at the separating space (like \"status *\"), or compare it exactly (== \"status\"), and use resource.args.contains(..) for flags")

abbrev pub args_text : (Text → Text) → Text → Text → Text
args_text debug id literal' =
    lit "policy "
    ++ (id
        ++ (lit " tests resource.args membership against "
            ++ (debug literal'
                ++ lit
                    ", which contains a path separator; args[0] is an absolute per-run shim path that no literal can match, so if this is meant to pin the program it never matches — match resource.command instead (harmless if it really is a path argument)")))

-- One line for a permit with reads that are no pins, whatever their number.
abbrev pub tail_lints : Bool → Text → ℕ → List Text
tail_lints is_permit id n = if is_permit && not (n == 0) then tail_text id ∷ [] else []

-- The lints of a set; `fuel` bounds the walks over one policy, and `debug` is the quoting of `{:?}`.
module _ (c : Cedar) (json : JsonReader) (to_json : c.Policy → Option json.Value)
    (debug : Text → Text) where
  open c use {Policy, PolicySet, policies, policy_id, is_permit}
  open json use {Value}

  -- The body of the loop. A policy with no JSON form is passed over.
  unfoldable pub lint_policy : (Value → ℕ) → Policy → Option (List Text)
  unfolding unpinned path_literals
  lint_policy fuel policy = elim (to_json policy) [
    | none ↦ some []
    | some node ↦ and_then (unpinned json (fuel node) node) (λ n.
        map_some
          (λ literals.
            tail_lints (is_permit policy) (policy_id policy) n
            ++ map (args_text debug (policy_id policy)) literals)
          (path_literals json (fuel node) node))
  ]

  -- `lint_arg_matching`
  unfoldable pub lint_arg_matching : (Value → ℕ) → PolicySet → Option (List Text)
  unfolding lint_policy collect
  lint_arg_matching fuel set = collect (lint_policy fuel) (policies set)
