-- ===== src/Audit/Fields.antt =====
-- The derived `Serialize` of the records of src/audit.rs, up to the writer of serde's JSON crate: the
-- keys of a line in order, with their values.
pub mod ReadBack
use nono_cedar_pdp.Base.{
  ℕ, Bool, true, false, Option, none, some, List, [], ◌∷◌, if◌then◌else◌, Text, lit, text_eq,
}
use nono_cedar_pdp.Audit.{AuditRecord, PolicySetRecord, Line, decision_line, policy_set_line}

-- The JSON values that a line has.
pub data Value : Type 0 where
  null : Value
  string : Text → Value
  number : ℕ → Value
  boolean : Bool → Value
  strings : List Text → Value

-- An absent value is an explicit `null`.
abbrev pub text_or_null : Option Text → Value
text_or_null none = null
text_or_null (some t) = string t

abbrev pub number_or_null : Option ℕ → Value
number_or_null none = null
number_or_null (some n) = number n

abbrev pub strings_or_null : Option (List Text) → Value
strings_or_null none = null
strings_or_null (some ts) = strings ts

-- `AuditRecord` and `PolicySetRecord`
unfoldable pub fields : Line → List (Text × Value)
fields (decision_line r) =
    (lit "kind", string r.kind)
    ∷ (lit "ts", string r.ts)
    ∷ (lit "request_id", text_or_null r.request_id)
    ∷ (lit "session_id", text_or_null r.session_id)
    ∷ (lit "backend", text_or_null r.backend)
    ∷ (lit "agent", text_or_null r.agent)
    ∷ (lit "principal", text_or_null r.principal)
    ∷ (lit "action", text_or_null r.action)
    ∷ (lit "resource", text_or_null r.resource)
    ∷ (lit "child_pid", number_or_null r.child_pid)
    ∷ (lit "intercept_rule", text_or_null r.intercept_rule)
    ∷ (lit "rule_label", text_or_null r.rule_label)
    ∷ (lit "user_agent", text_or_null r.user_agent)
    ∷ (lit "decision", string r.decision)
    ∷ (lit "matched", strings r.matched)
    ∷ (lit "reason", string r.reason)
    ∷ (lit "eval_us", number r.eval_us)
    ∷ []
fields (policy_set_line r) =
    (lit "kind", string r.kind)
    ∷ (lit "ts", string r.ts)
    ∷ (lit "outcome", string r.outcome)
    ∷ (lit "generation", number r.generation)
    ∷ (lit "content_hash", text_or_null r.content_hash)
    ∷ (lit "files", strings_or_null r.files)
    ∷ (lit "at_risk", boolean r.at_risk)
    ∷ (lit "reason", text_or_null r.reason)
    ∷ []
