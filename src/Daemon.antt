-- ===== src/Daemon.antt =====
-- The running daemon of src/server.rs and src/watcher.rs: the requests in flight and the watch thread
-- on the state they share. A step is what one of them does between two looks at that state, so that
-- any interleaving of them is a sequence of steps. A thread that reads the engine holds a snapshot.
pub mod Provenance
pub mod InOrder
pub mod Grounds
pub mod Soundness
pub mod Allowed
pub mod Trail
pub mod Clean
pub mod OnDisk
pub mod ReadBack
pub mod Atomic
use nono_cedar_pdp.Base.{
  ℕ, ◌≡◌, Bool, true, false, Option, none, some, List, [], ◌∷◌, ◌++◌, map, ◌==◌, Text, Bytes, lit,
  Result, ok, err,
}
use nono_cedar_pdp.Query.{PolicyQuery}
use nono_cedar_pdp.Decision.{Decision, deny_with, to_wire}
use nono_cedar_pdp.Adapter.{deny_reason, default_context, scrape_context, parse}
use nono_cedar_pdp.Audit.{
  AuditRecord, Line, decision_line, decided, rejected, policy_set_line, policy_set,
  PolicySetOutcome, loaded, refused, failed, name,
}
use nono_cedar_pdp.Cedar.{Cedar}
use nono_cedar_pdp.Loader.{PolicyLoadError}
use nono_cedar_pdp.Engine.{Engine, evaluate, reload}
use nono_cedar_pdp.Server.{
  HeaderMap, Outside, Reply, error, wire, AppState, header_gate, observed, max_request_bytes, log,
  healthz,
}
use nono_cedar_pdp.Watcher.{Watch, Round, trust_of}

abbrev pub no_policies : Reply
no_policies = record { status = 503; body = error (lit "no policies loaded") }

abbrev pub ok_wire : Decision → Reply
ok_wire v = record { status = 200; body = wire (to_wire v) }

module _ (c : Cedar) (E : Type 0) where
  -- A request that got through the gate and the serving check, before and behind its decision. What
  -- `to_bytes` is to yield is there from the start, but it is looked at only in the step `decide`: a
  -- request whose body never comes is one that stays `waiting`.
  pub data Task : Type 1 where
    waiting : Outside E → Option Text → (ℕ → Option Bytes) → Task
    decided_task : AuditRecord → Decision → Task

  -- The watch thread: between two bursts, behind an attempt that is still to be recorded, and
  -- behind the record, with the health surface still to be set.
  pub data Thread : Type 0 where
    idle : Thread
    attempted : Text × Text → ℕ → PolicySetOutcome → Thread
    written : Text → PolicySetOutcome → Thread

  pub record Daemon : Type 1 where
    pub state : AppState c
    pub at_risk : Bool
    pub tasks : List Task
    pub thread : Thread
    pub replies : List Reply

  -- What `approve` decides behind its two guards, and the line that it writes of it.
  unfoldable pub verdict :
      Outside E → Option Text → (ℕ → Option Bytes) → AppState c → AuditRecord × Decision
  verdict o user_agent to_bytes s = elim (to_bytes max_request_bytes) [
    | none ↦
        let d = deny_with (
          lit
            "approval request body was unreadable or above the 1048576-byte limit; failing closed") in
        (rejected o.ts default_context d user_agent, d)
    | some body ↦ elim (parse o.parse_envelope body s.config) [
      | err e ↦
          let d = deny_with (deny_reason e) in
          (rejected o.ts (scrape_context o.json body s.config) d user_agent, d)
      | ok q ↦
          let d = evaluate c o.debug o.eval_us s.engine q in
          (decided o.debug o.ts q d user_agent, d)
    ]
  ]

  abbrev pub of_verdict : AuditRecord × Decision → Task
  of_verdict v = decided_task v.0 v.1

  -- What one attempt of the watch thread does to the engine, and what is to be recorded of it.
  unfoldable pub reloaded :
      Round c E → Engine c × Result (PolicyLoadError E) ℕ → Engine c × ℕ × PolicySetOutcome
  reloaded r (engine, ok generation) =
      let l = engine.current in
      (engine, l.generation, loaded l.content_hash (map r.display l.files))
  reloaded r (engine, err e) = (engine, engine.current.generation, failed (r.show e))

  unfoldable pub attempt :
      Round c E → Engine c → Result Text (Unit {0}) → Engine c × ℕ × PolicySetOutcome
  unfolding reloaded
  attempt r engine (err e) = (engine, engine.current.generation, refused e)
  attempt r engine (ok u) = reloaded r (reload c r.env r.listing engine)

  abbrev pub watch_of : Daemon → Watch c
  watch_of d = record {
    engine = d.state.engine;
    at_risk = d.at_risk;
    audit = d.state.audit;
    last_reload = d.state.last_reload;
  }

  abbrev pub attempted_by : Round c E → Daemon → Engine c × ℕ × PolicySetOutcome
  attempted_by r d = attempt r d.state.engine (trust_of c r (watch_of d))

  pub data Step : Daemon → Daemon → Type 1 where
    -- A request arrives: it is turned away, or is in flight.
    gate :
        {d : Daemon} (o : Outside E) (headers : HeaderMap) (reply : Reply)
        → header_gate o.lossy headers ≡ some reply
        → Step d (record d { replies = reply ∷ d.replies })
    unavailable :
        {d : Daemon} (o : Outside E) (headers : HeaderMap)
        → header_gate o.lossy headers ≡ none
        → (c.num_of_policies d.state.engine.current.set == 0) ≡ true
        → Step d (record d { replies = no_policies ∷ d.replies })
    accept :
        {d : Daemon} (o : Outside E) (headers : HeaderMap) (to_bytes : ℕ → Option Bytes)
        → header_gate o.lossy headers ≡ none
        → (c.num_of_policies d.state.engine.current.set == 0) ≡ false
        → Step d (record d {
          tasks = waiting o (observed o.lossy headers (lit "user-agent")) to_bytes ∷ d.tasks;
        })
    -- A request in flight is decided with the engine that it meets, and later recorded and answered.
    decide :
        {d : Daemon} (before after : List Task) (o : Outside E) (user_agent : Option Text)
        (to_bytes : ℕ → Option Bytes)
        → d.tasks ≡ before ++ waiting o user_agent to_bytes ∷ after
        → Step d (record d {
          tasks = before ++ of_verdict (verdict o user_agent to_bytes d.state) ∷ after;
        })
    answer :
        {d : Daemon} (before after : List Task) (line : AuditRecord) (v : Decision)
        → d.tasks ≡ before ++ decided_task line v ∷ after
        → Step d (record d {
          state = log c (decision_line line) d.state;
          tasks = before ++ after;
          replies = ok_wire v ∷ d.replies;
        })
    -- The watch thread: the trust check with the reload, the record, and the health surface.
    burst :
        {d : Daemon} (r : Round c E)
        → d.thread ≡ idle
        → Step d (record d {
          state = record (d.state) { engine = (attempted_by r d).0 };
          thread = attempted r.now (attempted_by r d).1 (attempted_by r d).2;
        })
    write :
        {d : Daemon} (now : Text × Text) (generation : ℕ) (outcome : PolicySetOutcome)
        → d.thread ≡ attempted now generation outcome
        → Step d (record d {
          state = log c (policy_set_line (policy_set now.0 generation d.at_risk outcome)) d.state;
          thread = written now.1 outcome;
        })
    store :
        {d : Daemon} (at : Text) (outcome : PolicySetOutcome)
        → d.thread ≡ written at outcome
        → Step d (record d {
          state = record (d.state) {
            last_reload = some (record { outcome = name outcome; at = at });
          };
          thread = idle;
        })
    health :
        {d : Daemon} (rfc3339 : ℕ → Option Text)
        → Step d (record d { replies = healthz c rfc3339 d.state ∷ d.replies })

  pub data Steps : Daemon → Daemon → Type 1 where
    done : {d : Daemon} → Steps d d
    more : {d e f : Daemon} → Step d e → Steps e f → Steps d f
