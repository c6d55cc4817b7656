-- ===== src/Daemon/Grounds.antt =====
-- Why the daemon of src/server.rs and src/watcher.rs sent a reply, and what keeps a reason true while
-- the trail grows and the watch thread goes on.
use nono_cedar_pdp.Base.{
  ℕ, ◌≡◌, inl, inr, Bool, Option, List, [], ◌∷◌, ◌++◌, IsIn, IsIn-append_left, Text, Bytes, some,
  Result, ok,
}
use nono_cedar_pdp.Query.{PolicyQuery}
use nono_cedar_pdp.Decision.{Decision, deny_with}
use nono_cedar_pdp.Wire.{WebhookEnvelope}
use nono_cedar_pdp.Config.{Config}
use nono_cedar_pdp.Adapter.{RejectedContext, parse}
use nono_cedar_pdp.Audit.{
  decided, rejected, AuditRecord, Line, decision_line, decision_name, PolicySetRecord,
  policy_set_line, policy_set, PolicySetOutcome,
}
use nono_cedar_pdp.Cedar.{Cedar}
use nono_cedar_pdp.Loader.{LoadedPolicies}
use nono_cedar_pdp.Engine.{Engine, evaluate}
use nono_cedar_pdp.Engine.Reload.{IsServing}
use nono_cedar_pdp.Server.{Reply, AppState, HeaderMap, header_gate, max_request_bytes, healthz}
use nono_cedar_pdp.Daemon.Provenance.{
  Recorded, pending, Named, Named-grows, Named-idle, Named-written, Named-write,
}
use nono_cedar_pdp.Daemon.{ok_wire, Task, waiting, decided_task, Thread, idle, attempted, written}

-- The line tells of the decision.
pub record Tells (line : AuditRecord) (v : Decision) : Type 0 where
  pub decision : line.decision ≡ decision_name v
  pub reason : line.reason ≡ v.reason
  pub matched : line.matched ≡ v.matched

-- The trail has a policy-set line of this outcome.
pub record OnTrail (audit : List Line) (outcome : Text) : Type 0 where
  pub line : PolicySetRecord
  pub is_in : IsIn (policy_set_line line) audit
  pub of_outcome : line.outcome ≡ outcome

pub OnTrail-grows :
    (audit : List Line) (l : Line) {outcome : Text}
    → OnTrail audit outcome
    → OnTrail (audit ++ l ∷ []) outcome
OnTrail-grows audit l h = record {
  line = h.line;
  is_in = IsIn-append_left audit (l ∷ []) h.is_in;
  of_outcome = h.of_outcome;
}

module _ (c : Cedar) (E : Type 0) where
  -- Where a decision and its line come from: a refusal, or an evaluation of the query that the
  -- request's body is, by an engine that serves a set that is not empty, passed validation and has
  -- its line in the trail, or is about to have it.
  pub data Founded (config : Config) (audit : List Line) (t : Thread c E) (line : AuditRecord)
      (v : Decision) : Type 0 where
    refusal :
        (ts : Text) (context : RejectedContext) (reason : Text) (user_agent : Option Text)
        → v ≡ deny_with reason
        → line ≡ rejected ts context v user_agent
        → Founded config audit t line v
    evaluated :
        (debug : Text → Text) (ts : Text) (eval_us : ℕ)
        (parse_envelope : Bytes → Result E WebhookEnvelope) (to_bytes : ℕ → Option Bytes)
        (body : Bytes) (user_agent : Option Text) (engine : Engine c) (q : PolicyQuery)
        → to_bytes max_request_bytes ≡ some body
        → parse parse_envelope body config ≡ ok q
        → IsServing c engine
        → Named c E audit t engine.current
        → v ≡ evaluate c debug eval_us engine q
        → line ≡ decided debug ts q v user_agent
        → Founded config audit t line v

  -- Why a reply was sent, with the trail and the watch thread as they stand.
  pub data Justified (config : Config) (audit : List Line) (t : Thread c E) (reply : Reply)
      : Type 0 where
    turned_away :
        (lossy : Bytes → Text) (headers : HeaderMap)
        → header_gate lossy headers ≡ some reply
        → Justified config audit t reply
    told :
        (rfc3339 : ℕ → Option Text) (s : AppState c)
        → reply ≡ healthz c rfc3339 s
        → Justified config audit t reply
    on_record :
        (line : AuditRecord) (v : Decision)
        → IsIn (decision_line line) audit
        → Tells line v
        → Founded config audit t line v
        → reply ≡ ok_wire v
        → Justified config audit t reply

  -- Every line of a decision tells of one that is founded.
  abbrev pub LineSound : Config → List Line → Thread c E → Line → Type 0
  LineSound config audit t (decision_line line) =
      (v : Decision) × Tells line v × Founded config audit t line v
  LineSound config audit t (policy_set_line line) = Unit

  -- What stays true while the trail grows and the watch thread goes on.
  pub record Onward (audit audit' : List Line) (t t' : Thread c E) : Type 0 where
    pub lines : (l : Line) → IsIn l audit → IsIn l audit'
    pub named : (l : LoadedPolicies c) → Named c E audit t l → Named c E audit' t' l

  pub Founded-on :
      {config : Config} {audit audit' : List Line} {t t' : Thread c E} (line : AuditRecord)
      (v : Decision)
      → Onward audit audit' t t'
      → Founded config audit t line v
      → Founded config audit' t' line v
  Founded-on line v o (refusal ts x r u e l) = refusal ts x r u e l
  Founded-on line v o (evaluated d ts n pe tb b u engine q w p k m e l) =
      evaluated d ts n pe tb b u engine q w p k (o.named engine.current m) e l

  pub Justified-on :
      {config : Config} {audit audit' : List Line} {t t' : Thread c E} (reply : Reply)
      → Onward audit audit' t t'
      → Justified config audit t reply
      → Justified config audit' t' reply
  Justified-on reply o (turned_away l h e) = turned_away l h e
  Justified-on reply o (told r s e) = told r s e
  Justified-on reply o (on_record line v i t f e) =
      on_record line v (o.lines (decision_line line) i) t (Founded-on line v o f) e

  pub LineSound-on :
      (config : Config) {audit audit' : List Line} {t t' : Thread c E} (l : Line)
      → Onward audit audit' t t'
      → LineSound config audit t l
      → LineSound config audit' t' l
  LineSound-on config (decision_line line) o (v, k, f) = (v, k, Founded-on line v o f)
  LineSound-on config (policy_set_line line) o h = tt

  abbrev pub TaskSound : Config → List Line → Thread c E → Task c E → Type 0
  TaskSound config audit t (waiting o user_agent to_bytes) = Unit
  TaskSound config audit t (decided_task line v) = Tells line v × Founded config audit t line v

  pub TaskSound-on :
      (config : Config) {audit audit' : List Line} {t t' : Thread c E} (task : Task c E)
      → Onward audit audit' t t'
      → TaskSound config audit t task
      → TaskSound config audit' t' task
  TaskSound-on config (waiting o user_agent to_bytes) n h = tt
  TaskSound-on config (decided_task line v) n h = (h.0, Founded-on line v n h.1)

  -- A line of a decision.
  pub logged : (audit : List Line) (l : Line) (t : Thread c E) → Onward audit (audit ++ l ∷ []) t t
  logged audit l t = record {
    lines = λ x i. IsIn-append_left audit (l ∷ []) i;
    named = λ x n. Named-grows c E audit l t n;
  }

  -- The watch thread begins an attempt, writes its line, and waits again.
  pub begun : (audit : List Line) (t t' : Thread c E) → t ≡ idle → Onward audit audit t t'
  begun audit t t' q = record { lines = λ x i. i; named = λ x n. Named-idle c E audit t t' q n }

  pub told_of :
      (audit : List Line) (t t' : Thread c E) (now : Text × Text) (generation : ℕ) (at_risk : Bool)
      (outcome : PolicySetOutcome)
      → t ≡ attempted now generation outcome
      → Onward audit
          (audit ++ policy_set_line (policy_set now.0 generation at_risk outcome) ∷ [])
          t
          t'
  told_of audit t t' now generation at_risk outcome q = record {
    lines = λ x i. IsIn-append_left audit _ i;
    named = λ x n. Named-write c E audit t t' now generation at_risk outcome q n;
  }

  pub ended :
      (audit : List Line) (t t' : Thread c E) (at : Text) (outcome : PolicySetOutcome)
      → t ≡ written at outcome
      → Onward audit audit t t'
  ended audit t t' at outcome q = record {
    lines = λ x i. i;
    named = λ x n. Named-written c E audit t t' at outcome q n;
  }

  pub Recorded-idle :
      (audit : List Line) (t : Thread c E) {l : LoadedPolicies c}
      → t ≡ idle
      → Named c E audit t l
      → Recorded c audit l
  Recorded-idle audit t q (inl h) = h
  Recorded-idle audit t q (inr (pending now display p)) = absurd (cc)
