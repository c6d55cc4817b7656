-- ===== src/Query.antt =====
-- src/query.rs: the adapter-neutral query that everything behind the adapter reads.
use nono_cedar_pdp.Base.{ℕ, Option, List, ◌++◌, Text, lit, join}
use nono_cedar_pdp.Sanitize.{control_escape}

pub data CallerKind : Type 0 where
  session command : CallerKind

-- `CallerKind::as_str`
unfoldable pub as_str : CallerKind → Text
as_str session = lit "session"
as_str command = lit "command"

pub record CommandTarget : Type 0 where
  pub command : Text
  pub args : List Text
  pub intercept_rule : Text
  pub child_pid : ℕ

pub record EndpointTarget : Type 0 where
  pub route_id : Text
  pub upstream : Text
  pub method : Text
  pub path : Text
  pub rule_label : Text
  pub child_pid : ℕ

pub data Target : Type 0 where
  command_target : CommandTarget → Target
  endpoint_target : EndpointTarget → Target

pub record PolicyQuery : Type 0 where
  pub agent : Text
  pub session_id : Text
  pub caller : Text
  pub caller_kind : CallerKind
  pub request_id : Text
  pub backend : Text
  pub reason : Option Text
  pub target : Target

unfoldable pub action_name_of : Target → Text
action_name_of (command_target t) = lit "launchCommand"
action_name_of (endpoint_target t) = lit "httpRequest"

-- `PolicyQuery::action_name`
unfoldable pub action_name : PolicyQuery → Text
unfolding action_name_of
action_name q = action_name_of q.target

unfoldable pub raw_summary : Target → Text
raw_summary (command_target t) = t.command ++ (lit " [" ++ (join (lit " ") t.args ++ lit "]"))
raw_summary (endpoint_target t) = t.method ++ (lit " " ++ (t.upstream ++ t.path))

-- `PolicyQuery::resource_summary`
unfoldable pub resource_summary : PolicyQuery → Text
unfolding raw_summary
resource_summary q = control_escape (raw_summary q.target)
