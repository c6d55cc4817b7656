-- ===== src/Daemon/Soundness.antt =====
-- What holds of the daemon of src/server.rs and src/watcher.rs however its requests and its watch
-- thread interleave.
use nono_cedar_pdp.Base.{
  ℕ, ◌≡◌, refl, sym, ap, ◌∙◌, append-nil, arith, subst, inl, inr, Bool, Option, none, some,
  Option-cases, List, [], ◌∷◌, ◌++◌, All, All-map, All-append, All-split, IsIn-last, Text, Bytes,
  Result, ok, err, Result-cases,
}
use nono_cedar_pdp.Adapter.{parse, default_context, scrape_context}
use nono_cedar_pdp.Audit.{
  Line, decision_line, decided, rejected, policy_set_line, policy_set, PolicySetOutcome, name,
}
use nono_cedar_pdp.Cedar.{Cedar}
use nono_cedar_pdp.Loader.{PolicyLoadError}
use nono_cedar_pdp.Engine.{Engine, reload}
use nono_cedar_pdp.Engine.Reload.{IsServing, reload-IsServing}
use nono_cedar_pdp.Server.{
  Outside, Reply, HeaderMap, AppState, LastReload, header_gate, max_request_bytes, log, healthz,
}
use nono_cedar_pdp.Server.Gate.{header_gate-refusal}
use nono_cedar_pdp.Watcher.{Round, trust_of}
use nono_cedar_pdp.Daemon.Provenance.{Named, attempt-Named}
use nono_cedar_pdp.Daemon.InOrder.{
  recorded, answered, wire_of, recorded-append, in_step-answer, in_step-silent,
}
use nono_cedar_pdp.Daemon.Grounds.{
  LineSound, LineSound-on, Tells, OnTrail, OnTrail-grows, Founded, refusal, evaluated, Justified,
  turned_away, told, on_record, Founded-on, Justified-on, TaskSound, TaskSound-on, logged, begun,
  told_of, ended, Recorded-idle,
}
use nono_cedar_pdp.Daemon.{
  waiting, decided_task, Thread, idle, attempted, written, Daemon, verdict, reloaded, attempt,
  watch_of, Step, gate, unavailable, accept, decide, answer, burst, write, store, health, Steps,
  done, more,
}

policy_set_outcome :
    (ts : Text) (generation : ℕ) (at_risk : Bool) (outcome : PolicySetOutcome)
    → (policy_set ts generation at_risk outcome).outcome ≡ name outcome
unfolding policy_set
policy_set_outcome ts generation at_risk outcome = refl

gate_is_silent :
    (lossy : Bytes → Text) (headers : HeaderMap) (reply : Reply)
    → header_gate lossy headers ≡ some reply
    → wire_of reply.body ≡ []
gate_is_silent lossy headers reply g =
    let (status, text, k, q) = header_gate-refusal lossy headers reply g in
    ap (λ r. wire_of r.body) q

health_is_silent :
    (c : Cedar) (rfc3339 : ℕ → Option Text) (s : AppState c)
    → wire_of (healthz c rfc3339 s).body ≡ []
unfolding healthz
health_is_silent c rfc3339 s = refl

module _ (c : Cedar) (E : Type 0) where
  abbrev pub ThreadSound : List Line → Thread c E → Type 0
  ThreadSound audit idle = Unit
  ThreadSound audit (attempted now generation outcome) = Unit
  ThreadSound audit (written at outcome) = OnTrail audit (name outcome)

  abbrev pub SurfaceSound : List Line → Option LastReload → Type 0
  SurfaceSound audit none = Unit
  SurfaceSound audit (some l) = OnTrail audit l.outcome

  -- The invariant of the daemon.
  pub record Sound (d : Daemon c E) : Type 1 where
    pub serving : IsServing c d.state.engine
    pub named : Named c E d.state.audit d.thread d.state.engine.current
    pub replies : All (Justified c E d.state.config d.state.audit d.thread) d.replies
    pub in_order : answered d.replies ≡ recorded d.state.audit
    pub lines : All (LineSound c E d.state.config d.state.audit d.thread) d.state.audit
    pub tasks : All (TaskSound c E d.state.config d.state.audit d.thread) d.tasks
    pub thread : ThreadSound d.state.audit d.thread
    pub surface : SurfaceSound d.state.audit d.state.last_reload

  verdict-Sound :
      (o : Outside E) (user_agent : Option Text) (to_bytes : ℕ → Option Bytes) (s : AppState c)
      (t : Thread c E)
      → IsServing c s.engine
      → Named c E s.audit t s.engine.current
      → (let v = verdict c E o user_agent to_bytes s in
          Tells v.0 v.1 × Founded c E s.config s.audit t v.0 v.1)
  unfolding verdict rejected decided
  verdict-Sound o ua to_bytes s t h n = elim (Option-cases (to_bytes max_request_bytes)) [
    | inl b ↦
        rw (verdict, b)
          (
            record { decision = refl; reason = refl; matched = refl },
            refusal o.ts default_context _ ua refl refl,
          )
    | inr (body, b) ↦ elim (Result-cases (parse o.parse_envelope body s.config)) [
      | inl (e, p) ↦
          rw (verdict, b, p)
            (
              record { decision = refl; reason = refl; matched = refl },
              refusal o.ts (scrape_context o.json body s.config) _ ua refl refl,
            )
      | inr (q, p) ↦
          rw (verdict, b, p)
            (
              record { decision = refl; reason = refl; matched = refl },
              evaluated o.debug o.ts o.eval_us o.parse_envelope to_bytes body ua s.engine q b p h n
                  refl refl,
            )
    ]
  ]

  reloaded_engine :
      (r : Round c E) (x : Engine c × Result (PolicyLoadError E) ℕ) → (reloaded c E r x).0 ≡ x.0
  unfolding reloaded
  reloaded_engine r (e, ok n) = refl
  reloaded_engine r (e, err x) = refl

  attempt-IsServing :
      (r : Round c E) (e : Engine c) (trust : Result Text (Unit {0}))
      → IsServing c e
      → IsServing c (attempt c E r e trust).0
  unfolding attempt
  attempt-IsServing r e (err x) h = h
  attempt-IsServing r e (ok u) h =
      subst (IsServing c) (sym (reloaded_engine r (reload c r.env r.listing e)))
        (reload-IsServing c r.env r.listing e h)

  thread_grows :
      (audit : List Line) (l : Line) (t : Thread c E)
      → ThreadSound audit t
      → ThreadSound (audit ++ l ∷ []) t
  thread_grows audit l idle h = tt
  thread_grows audit l (attempted now g o) h = tt
  thread_grows audit l (written at o) h = OnTrail-grows audit l h

  surface_grows :
      (audit : List Line) (l : Line) (s : Option LastReload)
      → SurfaceSound audit s
      → SurfaceSound (audit ++ l ∷ []) s
  surface_grows audit l none h = tt
  surface_grows audit l (some r) h = OnTrail-grows audit l h

  -- No step breaks the invariant.
  Step-Sound : {d e : Daemon c E} → Step c E d e → Sound d → Sound e
  unfolding log
  Step-Sound {d} (gate o headers reply g) h = record {
    serving = h.serving;
    named = h.named;
    replies = (turned_away o.lossy headers g, h.replies);
    in_order = in_step-silent d.replies reply (gate_is_silent o.lossy headers reply g) h.in_order;
    lines = h.lines;
    tasks = h.tasks;
    thread = h.thread;
    surface = h.surface;
  }
  Step-Sound (unavailable o headers g z) h = absurd (h.serving.not_empty (ground (arith, z)))
  Step-Sound (accept o headers to_bytes g z) h = record {
    serving = h.serving;
    named = h.named;
    replies = h.replies;
    in_order = h.in_order;
    lines = h.lines;
    tasks = (tt, h.tasks);
    thread = h.thread;
    surface = h.surface;
  }
  Step-Sound {d} (decide before after o ua to_bytes q) h =
      let P = TaskSound c E d.state.config d.state.audit d.thread in
      let (l, t, r) = All-split P before (waiting o ua to_bytes) after (subst (All P) q h.tasks) in
      record {
        serving = h.serving;
        named = h.named;
        replies = h.replies;
        in_order = h.in_order;
        lines = h.lines;
        tasks =
            All-append P before _ l
              (verdict-Sound o ua to_bytes d.state d.thread h.serving h.named, r);
        thread = h.thread;
        surface = h.surface;
      }
  Step-Sound {d} (answer before after line v q) h =
      let audit = d.state.audit in
      let this = decision_line line in
      let n = logged c E audit this d.thread in
      let P = TaskSound c E d.state.config audit d.thread in
      let (l, t, r) = All-split P before (decided_task line v) after (subst (All P) q h.tasks) in
      record {
        serving = h.serving;
        named = n.named d.state.engine.current h.named;
        replies = (
          on_record line v (IsIn-last this audit) t.0 (Founded-on c E line v n t.1) refl,
          All-map d.replies (λ x k. Justified-on c E x n k) h.replies,
        );
        in_order = in_step-answer d.replies audit line v t.0.decision t.0.reason h.in_order;
        lines =
            All-append (LineSound c E d.state.config (audit ++ this ∷ []) d.thread) audit _
              (All-map audit (λ x k. LineSound-on c E d.state.config x n k) h.lines)
              ((v, t.0, Founded-on c E line v n t.1), tt);
        tasks =
            All-map (before ++ after) (λ x k. TaskSound-on c E d.state.config x n k)
              (All-append P before after l r);
        thread = thread_grows audit this d.thread h.thread;
        surface = surface_grows audit this d.state.last_reload h.surface;
      }
  Step-Sound {d} (burst r q) h =
      let audit = d.state.audit in
      let trust = trust_of c r (watch_of c E d) in
      let x = attempt c E r d.state.engine trust in
      let n = begun c E audit d.thread (attempted r.now x.1 x.2) q in
      record {
        serving = attempt-IsServing r d.state.engine trust h.serving;
        named =
            attempt-Named c E audit r d.state.engine trust
              (Recorded-idle c E audit d.thread q h.named);
        replies = All-map d.replies (λ x k. Justified-on c E x n k) h.replies;
        in_order = h.in_order;
        lines = All-map d.state.audit (λ x k. LineSound-on c E d.state.config x n k) h.lines;
        tasks = All-map d.tasks (λ x k. TaskSound-on c E d.state.config x n k) h.tasks;
        thread = tt;
        surface = h.surface;
      }
  Step-Sound {d} (write now generation outcome q) h =
      let audit = d.state.audit in
      let line = policy_set now.0 generation d.at_risk outcome in
      let this = policy_set_line line in
      let n =
        told_of c E audit d.thread (written now.1 outcome) now generation d.at_risk outcome q in
      record {
        serving = h.serving;
        named = n.named d.state.engine.current h.named;
        replies = All-map d.replies (λ x k. Justified-on c E x n k) h.replies;
        in_order =
            h.in_order ∙ (sym (append-nil (recorded audit)) ∙ sym (recorded-append audit this));
        lines =
            All-append (LineSound c E d.state.config (audit ++ this ∷ []) (written now.1 outcome))
              audit _ (All-map audit (λ x k. LineSound-on c E d.state.config x n k) h.lines)
              (tt, tt);
        tasks = All-map d.tasks (λ x k. TaskSound-on c E d.state.config x n k) h.tasks;
        thread = record {
          line = line;
          is_in = IsIn-last this audit;
          of_outcome = policy_set_outcome now.0 generation d.at_risk outcome;
        };
        surface = surface_grows audit this d.state.last_reload h.surface;
      }
  Step-Sound {d} (store at outcome q) h =
      let n = ended c E d.state.audit d.thread idle at outcome q in
      record {
        serving = h.serving;
        named = n.named d.state.engine.current h.named;
        replies = All-map d.replies (λ x k. Justified-on c E x n k) h.replies;
        in_order = h.in_order;
        lines = All-map d.state.audit (λ x k. LineSound-on c E d.state.config x n k) h.lines;
        tasks = All-map d.tasks (λ x k. TaskSound-on c E d.state.config x n k) h.tasks;
        thread = tt;
        surface = subst (ThreadSound d.state.audit) q h.thread;
      }
  Step-Sound {d} (health rfc3339) h = record {
    serving = h.serving;
    named = h.named;
    replies = (told rfc3339 d.state refl, h.replies);
    in_order =
        in_step-silent d.replies (healthz c rfc3339 d.state) (health_is_silent c rfc3339 d.state)
          h.in_order;
    lines = h.lines;
    tasks = h.tasks;
    thread = h.thread;
    surface = h.surface;
  }

  pub Steps-Sound : {d e : Daemon c E} → Steps c E d e → Sound d → Sound e
  Steps-Sound done h = h
  Steps-Sound (more s t) h = Steps-Sound t (Step-Sound s h)
