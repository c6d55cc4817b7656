-- ===== src/Daemon/Atomic.antt =====
-- The handlers of src/server.rs and src/watcher.rs, which are functions of the state, are runs of the
-- interleaved daemon in which nothing comes between.
use nono_cedar_pdp.Base.{
  ℕ, ◌≡◌, refl, sym, subst, inl, inr, true, false, Bool-cases, Option, none, some, Option-cases, [],
  ◌∷◌, ◌==◌, Text, Bytes, lit, Result, ok, err, Result-cases,
}
use nono_cedar_pdp.Adapter.{parse}
use nono_cedar_pdp.Audit.{decision_line, PolicySetOutcome}
use nono_cedar_pdp.Cedar.{Cedar}
use nono_cedar_pdp.Loader.{PolicyLoadError}
use nono_cedar_pdp.Engine.{Engine, reload}
use nono_cedar_pdp.Server.{
  HeaderMap, Outside, Reply, AppState, header_gate, observed, max_request_bytes, log, unreadable,
  refused, answer, approve,
}
use nono_cedar_pdp.Watcher.{
  Watch, Round, trust_of, record_outcome, record_loaded, record_reload, on_trust, on_burst,
}
use nono_cedar_pdp.Daemon.{
  no_policies, ok_wire, idle, Daemon, verdict, reloaded, attempt, watch_of, Step, gate, unavailable,
  accept, decide, burst, write, store, Steps, done, more,
}

module _ (c : Cedar) (E : Type 0) where
  -- `approve` behind its guards.
  approve-verdict :
      (o : Outside E) (headers : HeaderMap) (to_bytes : ℕ → Option Bytes) (s : AppState c)
      → header_gate o.lossy headers ≡ none
      → (c.num_of_policies s.engine.current.set == 0) ≡ false
      → approve c o headers to_bytes s ≡ (
          let v = verdict c E o (observed o.lossy headers (lit "user-agent")) to_bytes s in
          (log c (decision_line v.0) s, ok_wire v.1))
  unfolding approve verdict unreadable refused answer lit
  approve-verdict o headers to_bytes s g z = elim (Option-cases (to_bytes max_request_bytes)) [
    | inl b ↦ rw (approve, verdict, g, z, b) refl
    | inr (body, b) ↦ elim (Result-cases (parse o.parse_envelope body s.config)) [
      | inl (e, p) ↦ rw (approve, verdict, g, z, b, p) refl
      | inr (q, p) ↦ rw (approve, verdict, g, z, b, p) refl
    ]
  ]

  -- The daemon behind a whole call of a handler.
  abbrev pub replied : Daemon c E → AppState c × Reply → Daemon c E
  replied d r = record d { state = r.0; replies = r.1 ∷ d.replies }

  approve_guarded :
      (o : Outside E) (headers : HeaderMap) (to_bytes : ℕ → Option Bytes) (d : Daemon c E)
      → header_gate o.lossy headers ≡ none
      → (c.num_of_policies d.state.engine.current.set == 0) ≡ false
      → Steps c E d (replied d (approve c o headers to_bytes d.state))
  approve_guarded o headers to_bytes d g z =
      let ua = observed o.lossy headers (lit "user-agent") in
      let v = verdict c E o ua to_bytes d.state in
      subst (λ r. Steps c E d (replied d r)) (sym (approve-verdict o headers to_bytes d.state g z))
        (more (accept o headers to_bytes g z) (
          more (decide [] d.tasks o ua to_bytes refl)
            (more (Step.answer [] d.tasks v.0 v.1 refl) done)))

  approve_turned_away :
      (o : Outside E) (headers : HeaderMap) (to_bytes : ℕ → Option Bytes) (s : AppState c)
      (reply : Reply)
      → header_gate o.lossy headers ≡ some reply
      → approve c o headers to_bytes s ≡ (s, reply)
  unfolding approve
  approve_turned_away o headers to_bytes s reply g = rw (approve, g) refl

  approve_unavailable :
      (o : Outside E) (headers : HeaderMap) (to_bytes : ℕ → Option Bytes) (s : AppState c)
      → header_gate o.lossy headers ≡ none
      → (c.num_of_policies s.engine.current.set == 0) ≡ true
      → approve c o headers to_bytes s ≡ (s, no_policies)
  unfolding approve
  approve_unavailable o headers to_bytes s g z = rw (approve, g, z) refl

  -- A whole call of `approve` is a run of the daemon, whatever is in flight and whatever the watch
  -- thread is about to do: the interleaved daemon can do all that the handler as a function does.
  pub approve-Steps :
      (o : Outside E) (headers : HeaderMap) (to_bytes : ℕ → Option Bytes) (d : Daemon c E)
      → Steps c E d (replied d (approve c o headers to_bytes d.state))
  approve-Steps o headers to_bytes d = elim (Option-cases (header_gate o.lossy headers)) [
    | inr (reply, g) ↦
        subst (λ r. Steps c E d (replied d r))
          (sym (approve_turned_away o headers to_bytes d.state reply g))
          (more (gate o headers reply g) done)
    | inl g ↦ elim (Bool-cases (c.num_of_policies d.state.engine.current.set == 0)) [
      | inl z ↦
          subst (λ r. Steps c E d (replied d r))
            (sym (approve_unavailable o headers to_bytes d.state g z))
            (more (unavailable o headers g z) done)
      | inr z ↦ approve_guarded o headers to_bytes d g z
    ]
  ]

  -- What an attempt gives, recorded on both surfaces.
  abbrev pub recorded : Round c E → Watch c → Engine c × ℕ × PolicySetOutcome → Watch c
  recorded r w x = record_outcome c r.now x.1 x.2 (record w { engine = x.0 })

  record_reload_attempt :
      (r : Round c E) (x : Engine c × Result (PolicyLoadError E) ℕ) (w : Watch c)
      → record_reload c r x w ≡ recorded r w (reloaded c E r x)
  unfolding record_reload record_loaded reloaded
  record_reload_attempt r (e, ok n) w = refl
  record_reload_attempt r (e, err x) w = refl

  on_trust-attempt :
      (r : Round c E) (trust : Result Text (Unit {0})) (w : Watch c)
      → on_trust c r trust w ≡ recorded r w (attempt c E r w.engine trust)
  unfolding on_trust attempt
  on_trust-attempt r (err x) w = refl
  on_trust-attempt r (ok u) w = record_reload_attempt r (reload c r.env r.listing w.engine) w

  -- The daemon behind a whole round of the watch thread.
  abbrev pub watched : Daemon c E → Watch c → Daemon c E
  watched d w = record d {
    state = record (d.state) { engine = w.engine; audit = w.audit; last_reload = w.last_reload };
  }

  burst_recorded :
      (r : Round c E) (d : Daemon c E)
      → d.thread ≡ idle
      → Steps c E d (
          watched d (
            recorded r
              (watch_of c E d)
              (attempt c E r d.state.engine (trust_of c r (watch_of c E d)))))
  unfolding record_outcome log
  burst_recorded r d h =
      let x = attempt c E r d.state.engine (trust_of c r (watch_of c E d)) in
      let end : Daemon c E = watched d (recorded r (watch_of c E d) x) in
      subst (λ t. Steps c E d (record end { thread = t })) (sym h)
        (more (burst r h) (more (write r.now x.1 x.2 refl) (more (store r.now.1 x.2 refl) done)))

  -- A whole round of the watch thread is a run of the daemon from any state in which the thread
  -- waits.
  pub on_burst-Steps :
      (r : Round c E) (d : Daemon c E)
      → d.thread ≡ idle
      → Steps c E d (watched d (on_burst c r (watch_of c E d)))
  unfolding on_burst
  on_burst-Steps r d h =
      let w = watch_of c E d in
      subst (λ x. Steps c E d (watched d x)) (sym (on_trust-attempt r (trust_of c r w) w))
        (burst_recorded r d h)
