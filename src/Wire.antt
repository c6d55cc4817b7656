-- ===== src/Wire.antt =====
-- src/wire.rs: nono's approval webhook contract, as serde reads and writes it.
use nono_cedar_pdp.Base.{ℕ, Option, List, Text}

pub record CommandRequest : Type 0 where
  pub request_id : Text
  pub command : Text
  pub args : List Text
  pub caller : Text
  pub intercept_rule : Text
  pub reason : Option Text
  pub child_pid : ℕ
  pub session_id : Text

pub record EndpointRequest : Type 0 where
  pub request_id : Text
  pub route_id : Text
  pub upstream : Text
  pub method : Text
  pub path : Text
  pub rule_label : Text
  pub reason : Option Text
  pub child_pid : ℕ
  pub session_id : Text

-- `#[serde(other)]` sends every other variant to `unsupported`.
pub data ApprovalRequest : Type 0 where
  command : CommandRequest → ApprovalRequest
  endpoint : EndpointRequest → ApprovalRequest
  unsupported : ApprovalRequest

pub record WebhookEnvelope : Type 0 where
  pub backend : Text
  pub request : ApprovalRequest

pub data WebhookResponse : Type 0 where
  allow : WebhookResponse
  deny : Text → WebhookResponse
