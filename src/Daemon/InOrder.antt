-- ===== src/Daemon/InOrder.antt =====
-- The answers of the daemon of src/server.rs, oldest first, and what the lines of its trail tell of
-- them.
use nono_cedar_pdp.Base.{
  ◌≡◌, refl, ap, sym, ◌∙◌, inl, inr, Bool-cases, List, [], ◌∷◌, ◌++◌, append-nil, if◌then◌else◌,
  lit, text_eq,
}
use nono_cedar_pdp.Wire.{WebhookResponse, allow, deny}
use nono_cedar_pdp.Decision.{Decision, to_wire}
use nono_cedar_pdp.Audit.{AuditRecord, Line, decision_line, policy_set_line, decision_name}
use nono_cedar_pdp.Server.{Body, wire, error, health, Reply}

-- The answer that a line tells of.
unfoldable pub said : AuditRecord → WebhookResponse
said line = if text_eq line.decision (lit "allow") then allow else deny line.reason

abbrev pub recorded : List Line → List WebhookResponse
recorded [] = []
recorded (decision_line line ∷ ls) = said line ∷ recorded ls
recorded (policy_set_line line ∷ ls) = recorded ls

abbrev pub wire_of : Body → List WebhookResponse
wire_of (wire w) = w ∷ []
wire_of (error text) = []
wire_of (health generation count loaded_at last_reload) = []

-- The daemon's replies are kept with the newest in front.
abbrev pub answered : List Reply → List WebhookResponse
answered [] = []
answered (r ∷ rs) = answered rs ++ wire_of r.body

pub said-decided :
    (line : AuditRecord) (v : Decision)
    → line.decision ≡ decision_name v
    → line.reason ≡ v.reason
    → said line ≡ to_wire v
unfolding said decision_name to_wire lit text_eq
said-decided line v d r = elim (Bool-cases v.allow) [
  | inl e ↦ rw d (rw e refl)
  | inr e ↦ rw d (rw e (ap deny r))
]

-- A line that is appended.
pub recorded-append :
    (audit : List Line) (l : Line)
    → recorded (audit ++ l ∷ []) ≡ recorded audit ++ recorded (l ∷ [])
recorded-append [] l = refl
recorded-append (decision_line x ∷ audit) l = ap (◌∷◌ (said x)) (recorded-append audit l)
recorded-append (policy_set_line x ∷ audit) l = recorded-append audit l

-- A decision that is recorded and sent keeps answers and trail in step.
pub in_step-answer :
    (rs : List Reply) (audit : List Line) (line : AuditRecord) (v : Decision)
    → line.decision ≡ decision_name v
    → line.reason ≡ v.reason
    → answered rs ≡ recorded audit
    → answered rs ++ (to_wire v ∷ []) ≡ recorded (audit ++ decision_line line ∷ [])
in_step-answer rs audit line v d r h =
    ap (λ x. x ++ (to_wire v ∷ [])) h
    ∙ ap (λ w. recorded audit ++ (w ∷ [])) (sym (said-decided line v d r))
    ∙ sym (recorded-append audit (decision_line line))

-- Nor do a reply that is no decision and a line of a policy set.
pub in_step-silent :
    (rs : List Reply) (reply : Reply) {xs : List WebhookResponse}
    → wire_of reply.body ≡ []
    → answered rs ≡ xs
    → answered (reply ∷ rs) ≡ xs
in_step-silent rs reply e h = ap (λ w. answered rs ++ w) e ∙ (append-nil (answered rs) ∙ h)
