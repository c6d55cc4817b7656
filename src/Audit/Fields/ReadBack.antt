-- ===== src/Audit/Fields/ReadBack.antt =====
-- A consumer of the trail of src/audit.rs: it takes a line's values by their keys, and tells the two
-- shapes of a line apart by `kind` alone.
use nono_cedar_pdp.Base.{
  ℕ, ◌≡◌, refl, ap, ◌∙◌, Bool, Option, none, some, List, [], ◌∷◌, if◌then◌else◌, Text, lit, text_eq,
}
use nono_cedar_pdp.Adapter.{and_then}
use nono_cedar_pdp.Audit.{AuditRecord, PolicySetRecord, Line, decision_line, policy_set_line}
use nono_cedar_pdp.Audit.Fields.{
  Value, null, string, number, boolean, strings, text_or_null, number_or_null, strings_or_null,
  fields,
}

infixl 5 ◌>>=◌
abbrev ◌>>=◌ : {A B : Type 0} → Option A → (A → Option B) → Option B
o >>= f = and_then o f

unfoldable pub get : Text → List (Text × Value) → Value
get key [] = null
get key ((k, v) ∷ rest) = if text_eq k key then v else get key rest

as_text : Value → Option Text
as_text (string t) = some t
as_text _ = none

as_number : Value → Option ℕ
as_number (number n) = some n
as_number _ = none

as_boolean : Value → Option Bool
as_boolean (boolean b) = some b
as_boolean _ = none

as_strings : Value → Option (List Text)
as_strings (strings ts) = some ts
as_strings _ = none

optional_text : Value → Option (Option Text)
optional_text null = some none
optional_text (string t) = some (some t)
optional_text _ = none

optional_number : Value → Option (Option ℕ)
optional_number null = some none
optional_number (number n) = some (some n)
optional_number _ = none

optional_strings : Value → Option (Option (List Text))
optional_strings null = some none
optional_strings (strings ts) = some (some ts)
optional_strings _ = none

decision_of : List (Text × Value) → Option AuditRecord
decision_of v = do
  kind ← as_text (get (lit "kind") v)
  ts ← as_text (get (lit "ts") v)
  request_id ← optional_text (get (lit "request_id") v)
  session_id ← optional_text (get (lit "session_id") v)
  backend ← optional_text (get (lit "backend") v)
  agent ← optional_text (get (lit "agent") v)
  principal ← optional_text (get (lit "principal") v)
  action ← optional_text (get (lit "action") v)
  resource ← optional_text (get (lit "resource") v)
  child_pid ← optional_number (get (lit "child_pid") v)
  intercept_rule ← optional_text (get (lit "intercept_rule") v)
  rule_label ← optional_text (get (lit "rule_label") v)
  user_agent ← optional_text (get (lit "user_agent") v)
  decision ← as_text (get (lit "decision") v)
  matched ← as_strings (get (lit "matched") v)
  reason ← as_text (get (lit "reason") v)
  eval_us ← as_number (get (lit "eval_us") v)
  some (record {
    kind = kind;
    ts = ts;
    request_id = request_id;
    session_id = session_id;
    backend = backend;
    agent = agent;
    principal = principal;
    action = action;
    resource = resource;
    child_pid = child_pid;
    intercept_rule = intercept_rule;
    rule_label = rule_label;
    user_agent = user_agent;
    decision = decision;
    matched = matched;
    reason = reason;
    eval_us = eval_us;
  })

policy_set_of : List (Text × Value) → Option PolicySetRecord
policy_set_of v = do
  kind ← as_text (get (lit "kind") v)
  ts ← as_text (get (lit "ts") v)
  outcome ← as_text (get (lit "outcome") v)
  generation ← as_number (get (lit "generation") v)
  content_hash ← optional_text (get (lit "content_hash") v)
  files ← optional_strings (get (lit "files") v)
  at_risk ← as_boolean (get (lit "at_risk") v)
  reason ← optional_text (get (lit "reason") v)
  some (record {
    kind = kind;
    ts = ts;
    outcome = outcome;
    generation = generation;
    content_hash = content_hash;
    files = files;
    at_risk = at_risk;
    reason = reason;
  })

text-or_null : (o : Option Text) → optional_text (text_or_null o) ≡ some o
unfolding optional_text
text-or_null none = refl
text-or_null (some t) = refl

number-or_null : (o : Option ℕ) → optional_number (number_or_null o) ≡ some o
unfolding optional_number
number-or_null none = refl
number-or_null (some t) = refl

strings-or_null : (o : Option (List Text)) → optional_strings (strings_or_null o) ≡ some o
unfolding optional_strings
strings-or_null none = refl
strings-or_null (some t) = refl

ruleset nullable = (text-or_null, number-or_null, strings-or_null)

decision_of-fields : (r : AuditRecord) → decision_of (fields (decision_line r)) ≡ some r
unfolding decision_of fields get lit text_eq as_text as_number as_strings
decision_of-fields r = simp nullable

policy_set_of-fields : (r : PolicySetRecord) → policy_set_of (fields (policy_set_line r)) ≡ some r
unfolding policy_set_of fields get lit text_eq as_text as_number as_boolean
policy_set_of-fields r = simp nullable

abbrev map_line : {A : Type 0} → (A → Line) → Option A → Option Line
map_line f none = none
map_line f (some a) = some (f a)

shape_of : Text → List (Text × Value) → Option Line
shape_of kind v =
    if text_eq kind (lit "decision")
    then map_line decision_line (decision_of v)
    else if text_eq kind (lit "policy-set")
    then map_line policy_set_line (policy_set_of v)
    else none

pub line_of : List (Text × Value) → Option Line
line_of v = do kind ← as_text (get (lit "kind") v); shape_of kind v

-- The `kind` of each shape.
abbrev pub IsOfKind : Line → Type 0
IsOfKind (decision_line r) = r.kind ≡ lit "decision"
IsOfKind (policy_set_line r) = r.kind ≡ lit "policy-set"

decision_shape :
    (r : AuditRecord)
    → shape_of (lit "decision") (fields (decision_line r)) ≡ some (decision_line r)
unfolding shape_of lit text_eq
decision_shape r = ap (map_line decision_line) (decision_of-fields r)

policy_set_shape :
    (r : PolicySetRecord)
    → shape_of (lit "policy-set") (fields (policy_set_line r)) ≡ some (policy_set_line r)
unfolding shape_of lit text_eq
policy_set_shape r = ap (map_line policy_set_line) (policy_set_of-fields r)

-- A consumer gets back the very record that was written, in its shape.
pub line_of-fields : (l : Line) → IsOfKind l → line_of (fields l) ≡ some l
unfolding line_of fields get as_text lit text_eq
line_of-fields (decision_line r) h =
    ap (λ k. shape_of k (fields (decision_line r))) h ∙ decision_shape r
line_of-fields (policy_set_line r) h =
    ap (λ k. shape_of k (fields (policy_set_line r))) h ∙ policy_set_shape r
