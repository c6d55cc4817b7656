-- ===== src/Adapter.antt =====
-- src/adapter/nono_webhook.rs: from the body of a webhook call to a query. `serde_json::from_slice`
-- is a parameter, at each type that the source reads.
pub mod Laws
use nono_cedar_pdp.Base.{
  Bool, Option, none, some, ◌++◌, if◌then◌else◌, Text, Bytes, lit, text_eq, Result, ok, err, ◌>>=◌,
  map_err,
}
use nono_cedar_pdp.Sanitize.{control_escape}
use nono_cedar_pdp.Wire.{
  CommandRequest, EndpointRequest, ApprovalRequest, command, endpoint, unsupported, WebhookEnvelope,
}
use nono_cedar_pdp.Query.{CallerKind, Target, command_target, endpoint_target, PolicyQuery}
use nono_cedar_pdp.Config.{Config, agent_for}
use nono_cedar_pdp.Json.{JsonReader}

-- `PROXY_IDENTITY`
unfoldable pub proxy_identity : Text
proxy_identity = lit "proxy"

-- `AdaptError`, over serde's error.
pub data AdaptError (E : Type 0) : Type 0 where
  malformed : E → AdaptError E
  unsupported_variant : AdaptError E

-- `AdaptError::deny_reason`
unfoldable pub deny_reason : {E : Type 0} → AdaptError E → Text
deny_reason (malformed e) = lit "malformed approval request body; failing closed"
deny_reason unsupported_variant = lit "unsupported approval request variant; failing closed"

pub record RejectedContext : Type 0 where
  pub backend : Option Text
  pub agent : Option Text
  pub capability_type : Option Text
  pub request_id : Option Text
  pub session_id : Option Text

-- `RejectedContext::default()`
unfoldable pub default_context : RejectedContext
default_context = record {
  backend = none;
  agent = none;
  capability_type = none;
  request_id = none;
  session_id = none;
}

abbrev pub and_then {ℓ κ} : {A : Type ℓ} {B : Type κ} → Option A → (A → Option B) → Option B
and_then none f = none
and_then (some a) f = f a

abbrev pub map_some {ℓ κ} : {A : Type ℓ} {B : Type κ} → (A → B) → Option A → Option B
map_some f none = none
map_some f (some a) = some (f a)

-- The closure `text` of `scrape_context`.
unfoldable pub scrape_text : (json : JsonReader) → json.Value → Text → Option Text
scrape_text json parent key =
    and_then (json.get parent key) (λ v. map_some control_escape (json.as_str v))

-- What `scrape_context` takes from a body that is JSON.
unfoldable pub scrape_value : (json : JsonReader) → json.Value → Config → RejectedContext
scrape_value json value config =
    let backend = scrape_text json value (lit "backend") in
    let request = json.get value (lit "request") in
    record {
      backend = backend;
      agent = map_some (agent_for config) backend;
      capability_type = and_then request (λ r. scrape_text json r (lit "capability_type"));
      request_id = and_then request (λ r. scrape_text json r (lit "request_id"));
      session_id = and_then request (λ r. scrape_text json r (lit "session_id"));
    }

-- `scrape_context`
unfoldable pub scrape_context : JsonReader → Bytes → Config → RejectedContext
scrape_context json body config = elim (json.from_slice body) [
  | none ↦ default_context
  | some value ↦ scrape_value json value config
]

-- The caller's kind: only the exact label `session` is a direct launch.
unfoldable pub caller_kind : Text → CallerKind
caller_kind caller =
    if text_eq caller (lit "session") then CallerKind.session else CallerKind.command

unfoldable pub command_query : Text → Text → CommandRequest → PolicyQuery
unfolding caller_kind
command_query agent backend c = record {
  agent = agent;
  session_id = c.session_id;
  caller = c.caller;
  caller_kind = caller_kind c.caller;
  request_id = c.request_id;
  backend = backend;
  reason = c.reason;
  target = command_target (record {
    command = c.command;
    args = c.args;
    intercept_rule = c.intercept_rule;
    child_pid = c.child_pid;
  });
}

-- An endpoint request carries no session identity: both halves are pinned.
unfoldable pub endpoint_query : Text → Text → EndpointRequest → PolicyQuery
endpoint_query agent backend e = record {
  agent = agent;
  session_id = proxy_identity;
  caller = proxy_identity;
  caller_kind = CallerKind.session;
  request_id = e.request_id;
  backend = backend;
  reason = e.reason;
  target = endpoint_target (record {
    route_id = e.route_id;
    upstream = e.upstream;
    method = e.method;
    path = e.path;
    rule_label = e.rule_label;
    child_pid = e.child_pid;
  });
}

-- The `match envelope.request` of `parse`.
unfoldable pub query_of :
    {E : Type 0} → Text → Text → ApprovalRequest → Result (AdaptError E) PolicyQuery
unfolding command_query endpoint_query
query_of agent backend (command c) = ok (command_query agent backend c)
query_of agent backend (endpoint e) = ok (endpoint_query agent backend e)
query_of agent backend unsupported = err unsupported_variant

-- `parse`
unfoldable pub parse :
    {E : Type 0}
    → (Bytes → Result E WebhookEnvelope)
    → Bytes
    → Config
    → Result (AdaptError E) PolicyQuery
unfolding query_of
parse from_slice body config = do
  envelope ← map_err malformed (from_slice body)
  query_of (agent_for config envelope.backend) envelope.backend envelope.request
