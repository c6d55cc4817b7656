-- ===== src/Audit.antt =====
-- src/audit.rs: the lines of the decision log. `ts` is what `now_rfc3339` yields, and `debug` the
-- quoting of `{:?}`; serde's JSON writer stays outside.
pub mod Laws
pub mod Fields
pub mod LogFile
pub mod Sink
use nono_cedar_pdp.Base.{ℕ, Bool, Option, none, some, List, [], ◌++◌, map, if◌then◌else◌, Text, lit}
use nono_cedar_pdp.Sanitize.{control_escape}
use nono_cedar_pdp.Query.{
  Target, command_target, endpoint_target, PolicyQuery, action_name, resource_summary,
}
use nono_cedar_pdp.Decision.{Decision}
use nono_cedar_pdp.Adapter.{RejectedContext, map_some}

pub record AuditRecord : Type 0 where
  pub kind : Text
  pub ts : Text
  pub request_id : Option Text
  pub session_id : Option Text
  pub backend : Option Text
  pub agent : Option Text
  pub principal : Option Text
  pub action : Option Text
  pub resource : Option Text
  pub child_pid : Option ℕ
  pub intercept_rule : Option Text
  pub rule_label : Option Text
  pub user_agent : Option Text
  pub decision : Text
  pub matched : List Text
  pub reason : Text
  pub eval_us : ℕ

pub record PolicySetRecord : Type 0 where
  pub kind : Text
  pub ts : Text
  pub outcome : Text
  pub generation : ℕ
  pub content_hash : Option Text
  pub files : Option (List Text)
  pub at_risk : Bool
  pub reason : Option Text

-- The two shapes of a line.
pub data Line : Type 0 where
  decision_line : AuditRecord → Line
  policy_set_line : PolicySetRecord → Line

-- `PolicySetOutcome`; a path is what its `display` shows.
pub data PolicySetOutcome : Type 0 where
  loaded : Text → List Text → PolicySetOutcome
  refused : Text → PolicySetOutcome
  failed : Text → PolicySetOutcome

-- `PolicySetOutcome::name`
unfoldable pub name : PolicySetOutcome → Text
name (loaded hash files) = lit "loaded"
name (refused reason) = lit "refused"
name (failed reason) = lit "failed"

unfoldable pub target_child_pid : Target → ℕ
target_child_pid (command_target t) = t.child_pid
target_child_pid (endpoint_target t) = t.child_pid

unfoldable pub target_intercept_rule : Target → Option Text
target_intercept_rule (command_target t) = some (control_escape t.intercept_rule)
target_intercept_rule (endpoint_target t) = none

unfoldable pub target_rule_label : Target → Option Text
target_rule_label (command_target t) = none
target_rule_label (endpoint_target t) = some (control_escape t.rule_label)

unfoldable pub decision_name : Decision → Text
decision_name d = if d.allow then lit "allow" else lit "deny"

-- The line of `AuditLog::record`.
unfoldable pub decided : (Text → Text) → Text → PolicyQuery → Decision → Option Text → AuditRecord
unfolding target_child_pid target_intercept_rule target_rule_label
decided debug ts query d user_agent = record {
  kind = lit "decision";
  ts = ts;
  request_id = some (control_escape query.request_id);
  session_id = some (control_escape query.session_id);
  backend = some (control_escape query.backend);
  agent = some query.agent;
  principal = some (lit "Nono::Caller::" ++ debug query.caller);
  action = some (action_name query);
  resource = some (resource_summary query);
  child_pid = some (target_child_pid query.target);
  intercept_rule = target_intercept_rule query.target;
  rule_label = target_rule_label query.target;
  user_agent = map_some control_escape user_agent;
  decision = decision_name d;
  matched = d.matched;
  reason = d.reason;
  eval_us = d.eval_us;
}

-- The line of `AuditLog::record_rejected`.
unfoldable pub rejected : Text → RejectedContext → Decision → Option Text → AuditRecord
rejected ts context d user_agent = record {
  kind = lit "decision";
  ts = ts;
  request_id = context.request_id;
  session_id = context.session_id;
  backend = context.backend;
  agent = context.agent;
  principal = none;
  action = none;
  resource = map_some (λ v. lit "capability_type=" ++ v) context.capability_type;
  child_pid = none;
  intercept_rule = none;
  rule_label = none;
  user_agent = map_some control_escape user_agent;
  decision = decision_name d;
  matched = d.matched;
  reason = d.reason;
  eval_us = d.eval_us;
}

unfoldable pub outcome_hash : PolicySetOutcome → Option Text
outcome_hash (loaded hash files) = some hash
outcome_hash (refused reason) = none
outcome_hash (failed reason) = none

unfoldable pub outcome_files : PolicySetOutcome → Option (List Text)
outcome_files (loaded hash files) = some (map control_escape files)
outcome_files (refused reason) = none
outcome_files (failed reason) = none

unfoldable pub outcome_reason : PolicySetOutcome → Option Text
outcome_reason (loaded hash files) = none
outcome_reason (refused reason) = some (control_escape reason)
outcome_reason (failed reason) = some (control_escape reason)

-- The line of `AuditLog::record_policy_set`.
unfoldable pub policy_set : Text → ℕ → Bool → PolicySetOutcome → PolicySetRecord
unfolding outcome_hash outcome_files outcome_reason
policy_set ts generation at_risk outcome = record {
  kind = lit "policy-set";
  ts = ts;
  outcome = name outcome;
  generation = generation;
  content_hash = outcome_hash outcome;
  files = outcome_files outcome;
  at_risk = at_risk;
  reason = outcome_reason outcome;
}
