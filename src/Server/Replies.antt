-- ===== src/Server/Replies.antt =====
-- The replies of src/server.rs, told apart by their bodies.
use nono_cedar_pdp.Base.{◌≡◌, Text}
use nono_cedar_pdp.Wire.{WebhookResponse, allow}
use nono_cedar_pdp.Decision.{deny_with, to_wire}
use nono_cedar_pdp.Server.{wire, error}

pub error_ne : {t : Text} → error t ≡ wire allow → ⊥
error_ne h = cc

pub wire-injective : {a b : WebhookResponse} → wire a ≡ wire b → a ≡ b
wire-injective h = cc

-- A refusal is never an allow.
pub deny_ne : (t : Text) → wire (to_wire (deny_with t)) ≡ wire allow → ⊥
unfolding deny_with to_wire
deny_ne t h = cc
