-- ===== src/Audit/Laws.antt =====
-- What the lines of src/audit.rs can carry of a request.
use nono_cedar_pdp.Base.{
  ℕ, ◌≡◌, refl, Bool, false, Option, none, some, List, [], ◌∷◌, ◌++◌, map, All, [], ◌∷◌, Text,
  Bytes, lit,
}
use nono_cedar_pdp.Sanitize.{is_control, has_control, control_escape}
use nono_cedar_pdp.Sanitize.Laws.{has_control-append_false, control_escape-printable}
use nono_cedar_pdp.Json.{JsonReader}
use nono_cedar_pdp.Config.{Config}
use nono_cedar_pdp.Query.{
  Target, command_target, endpoint_target, PolicyQuery, action_name, action_name_of,
  resource_summary,
}
use nono_cedar_pdp.Decision.{Decision}
use nono_cedar_pdp.Adapter.{
  RejectedContext, map_some, and_then, default_context, scrape_text, scrape_value, scrape_context,
}
use nono_cedar_pdp.Audit.{
  AuditRecord, PolicySetOutcome, loaded, refused, failed, decided, rejected, policy_set,
  target_rule_label, target_intercept_rule, outcome_files, outcome_reason,
}

-- A field that is absent or carries no control character.
abbrev pub IsClean : Option Text → Type 0
IsClean none = Unit
IsClean (some t) = has_control t ≡ false

-- The fields of a decision line that a request fills.
pub record IsCleanRecord (r : AuditRecord) : Type 0 where
  pub request_id : IsClean r.request_id
  pub session_id : IsClean r.session_id
  pub backend : IsClean r.backend
  pub action : IsClean r.action
  pub resource : IsClean r.resource
  pub intercept_rule : IsClean r.intercept_rule
  pub rule_label : IsClean r.rule_label
  pub user_agent : IsClean r.user_agent

map_some-IsClean : (o : Option Text) → IsClean (map_some control_escape o)
map_some-IsClean none = tt
map_some-IsClean (some t) = control_escape-printable t

intercept-IsClean : (t : Target) → IsClean (target_intercept_rule t)
unfolding target_intercept_rule
intercept-IsClean (command_target t) = control_escape-printable _
intercept-IsClean (endpoint_target t) = tt

label-IsClean : (t : Target) → IsClean (target_rule_label t)
unfolding target_rule_label
label-IsClean (command_target t) = tt
label-IsClean (endpoint_target t) = control_escape-printable _

action-IsClean : (t : Target) → has_control (action_name_of t) ≡ false
unfolding action_name_of has_control is_control lit
action-IsClean (command_target t) = refl
action-IsClean (endpoint_target t) = refl

-- No field that a request fills carries a control character into the line of a decision.
pub decided-IsCleanRecord :
    (debug : Text → Text) (ts : Text) (q : PolicyQuery) (d : Decision) (user_agent : Option Text)
    → IsCleanRecord (decided debug ts q d user_agent)
unfolding decided resource_summary action_name
decided-IsCleanRecord debug ts q d user_agent = record {
  request_id = control_escape-printable _;
  session_id = control_escape-printable _;
  backend = control_escape-printable _;
  action = action-IsClean q.target;
  resource = control_escape-printable _;
  intercept_rule = intercept-IsClean q.target;
  rule_label = label-IsClean q.target;
  user_agent = map_some-IsClean user_agent;
}

and_then-IsClean :
    {A : Type 0} (o : Option A) (f : A → Option Text)
    → ((a : A) → IsClean (f a))
    → IsClean (and_then o f)
and_then-IsClean none f h = tt
and_then-IsClean (some a) f h = h a

text-IsClean : (json : JsonReader) (v : json.Value) (key : Text) → IsClean (scrape_text json v key)
unfolding scrape_text
text-IsClean json v key =
    and_then-IsClean (json.get v key) _ (λ x. map_some-IsClean (json.as_str x))

pub record IsCleanContext (x : RejectedContext) : Type 0 where
  backend : IsClean x.backend
  capability_type : IsClean x.capability_type
  request_id : IsClean x.request_id
  session_id : IsClean x.session_id

pub default-IsCleanContext : IsCleanContext default_context
unfolding default_context
default-IsCleanContext = record {
  backend = tt;
  capability_type = tt;
  request_id = tt;
  session_id = tt;
}

scrape_value-IsCleanContext :
    (json : JsonReader) (v : json.Value) (config : Config)
    → IsCleanContext (scrape_value json v config)
unfolding scrape_value
scrape_value-IsCleanContext json v config =
    let request = json.get v (lit "request") in
    record {
      backend = text-IsClean json v _;
      capability_type = and_then-IsClean request _ (λ r. text-IsClean json r _);
      request_id = and_then-IsClean request _ (λ r. text-IsClean json r _);
      session_id = and_then-IsClean request _ (λ r. text-IsClean json r _);
    }

pub scrape_context-IsCleanContext :
    (json : JsonReader) (body : Bytes) (config : Config)
    → IsCleanContext (scrape_context json body config)
unfolding scrape_context
scrape_context-IsCleanContext json body config =
    elim (json.from_slice body)
      as (λ o.
        IsCleanContext
          (elim o [ none ↦ default_context | some value ↦ scrape_value json value config ])) [
            | none ↦ default-IsCleanContext
            | some v ↦ scrape_value-IsCleanContext json v config
          ]

label_printable : has_control (lit "capability_type=") ≡ false
unfolding has_control is_control lit
label_printable = refl

resource-IsClean :
    (o : Option Text) → IsClean o → IsClean (map_some (λ v. lit "capability_type=" ++ v) o)
resource-IsClean none h = tt
resource-IsClean (some v) h = has_control-append_false (lit "capability_type=") v label_printable h

-- No field that a context fills carries a control character into the line of a refused request.
pub rejected-IsCleanRecord :
    (context : RejectedContext) (ts : Text) (d : Decision) (user_agent : Option Text)
    → IsCleanContext context
    → IsCleanRecord (rejected ts context d user_agent)
unfolding rejected
rejected-IsCleanRecord context ts d user_agent k = record {
  request_id = k.request_id;
  session_id = k.session_id;
  backend = k.backend;
  action = tt;
  resource = resource-IsClean _ k.capability_type;
  intercept_rule = tt;
  rule_label = tt;
  user_agent = map_some-IsClean user_agent;
}

abbrev pub AllClean : Option (List Text) → Type 0
AllClean none = Unit
AllClean (some ts) = All (λ t. has_control t ≡ false) ts

map-All : (ts : List Text) → All (λ t. has_control t ≡ false) (map control_escape ts)
map-All [] = tt
map-All (t ∷ ts) = (control_escape-printable t, map-All ts)

-- The reason and the file names of a policy-set line carry no control character, whatever the
-- outcome of the reload and the names of the files.
pub policy_set-printable :
    (ts : Text) (generation : ℕ) (at_risk : Bool) (outcome : PolicySetOutcome)
    → IsClean (policy_set ts generation at_risk outcome).reason
      × AllClean (policy_set ts generation at_risk outcome).files
unfolding policy_set outcome_files outcome_reason
policy_set-printable ts generation at_risk (loaded hash files) = (tt, map-All files)
policy_set-printable ts generation at_risk (refused reason) = (control_escape-printable reason, tt)
policy_set-printable ts generation at_risk (failed reason) = (control_escape-printable reason, tt)
