-- ===== src/Daemon/Trail.antt =====
-- What holds of every line that the daemon of src/server.rs and src/watcher.rs writes holds of its
-- trail.
use nono_cedar_pdp.Base.{ℕ, Bool, subst, Option, All, All-append, All-split, Text, Bytes}
use nono_cedar_pdp.Audit.{Line, decision_line, policy_set_line, policy_set, PolicySetOutcome}
use nono_cedar_pdp.Cedar.{Cedar}
use nono_cedar_pdp.Server.{Outside, AppState, log}
use nono_cedar_pdp.Server.Tls.{Net}
use nono_cedar_pdp.Process.{World}
use nono_cedar_pdp.Main.{Prepared}
use nono_cedar_pdp.Daemon.{
  Task, waiting, decided_task, Daemon, verdict, Step, gate, unavailable, accept, decide, answer,
  burst, write, store, health, Steps, done, more,
}
use nono_cedar_pdp.Daemon.Allowed.{started}

module _ (c : Cedar) (E : Type 0) (P : Line → Type 0)
    (of_verdict : (o : Outside E) (user_agent : Option Text) (to_bytes : ℕ → Option Bytes)
        (s : AppState c)
      → P (decision_line (verdict c E o user_agent to_bytes s).0))
    (of_outcome : (ts : Text) (generation : ℕ) (at_risk : Bool) (outcome : PolicySetOutcome)
      → P (policy_set_line (policy_set ts generation at_risk outcome))) where
  PTask : Task c E → Type 0
  PTask (waiting o user_agent to_bytes) = Unit
  PTask (decided_task line v) = P (decision_line line)

  record Lines (d : Daemon c E) : Type 1 where
    audit : All P d.state.audit
    tasks : All PTask d.tasks

  Step-All : {d e : Daemon c E} → Step c E d e → Lines d → Lines e
  unfolding log PTask
  Step-All (gate o headers reply g) h = record { audit = h.audit; tasks = h.tasks }
  Step-All (unavailable o headers g z) h = record { audit = h.audit; tasks = h.tasks }
  Step-All (accept o headers to_bytes g z) h = record { audit = h.audit; tasks = (tt, h.tasks) }
  Step-All {d} (decide before after o ua to_bytes q) h =
      let (l, t, r) =
        All-split PTask before (waiting o ua to_bytes) after (subst (All PTask) q h.tasks) in
      record {
        audit = h.audit;
        tasks = All-append PTask before _ l (of_verdict o ua to_bytes d.state, r);
      }
  Step-All {d} (answer before after line v q) h =
      let (l, t, r) =
        All-split PTask before (decided_task line v) after (subst (All PTask) q h.tasks) in
      record {
        audit = All-append P d.state.audit _ h.audit (t, tt);
        tasks = All-append PTask before after l r;
      }
  Step-All (burst r q) h = record { audit = h.audit; tasks = h.tasks }
  Step-All {d} (write now generation outcome q) h = record {
    audit =
        All-append P d.state.audit _ h.audit (of_outcome now.0 generation d.at_risk outcome, tt);
    tasks = h.tasks;
  }
  Step-All (store at outcome q) h = record { audit = h.audit; tasks = h.tasks }
  Step-All (health rfc3339) h = record { audit = h.audit; tasks = h.tasks }

  Steps-keep : {d e : Daemon c E} → Steps c E d e → Lines d → Lines e
  Steps-keep done h = h
  Steps-keep (more s t) h = Steps-keep t (Step-All s h)

  -- From the start of the daemon on.
  pub Steps-All :
      (net : Net E) (w : World c net) (p : Prepared c net) {d : Daemon c E}
      → Steps c E (started c net w p) d
      → All P d.state.audit
  Steps-All net w p s =
      (Steps-keep s (record { audit = (of_outcome w.now _ _ _, tt); tasks = tt })).audit
