-- ===== src/Main/Order.antt =====
-- The end of `run_serve` of src/main.rs: the order of what the daemon does when it starts.
use nono_cedar_pdp.Base.{◌≡◌, refl, inl, inr, not, none, [], ◌∷◌, map, ok, err, Result-cases}
use nono_cedar_pdp.Run.{Run, lift, act, act_all, after, inside, ◌>>=◌}
use nono_cedar_pdp.Audit.{Line, policy_set_line, policy_set, loaded}
use nono_cedar_pdp.Audit.Sink.{Sink}
use nono_cedar_pdp.Cedar.{Cedar}
use nono_cedar_pdp.FilePaths.{is_empty}
use nono_cedar_pdp.Server.{AppState}
use nono_cedar_pdp.Server.Tls.{Net}
use nono_cedar_pdp.Server.Listen.{serve}
use nono_cedar_pdp.Server.Listen.Transport.{Transport, serve-Transport}
use nono_cedar_pdp.Watcher.{record_bootstrap}
use nono_cedar_pdp.Process.{
  World, Failure, Event, opening, watching, wrote, listen, no_watcher, open_audit,
}
use nono_cedar_pdp.Main.{Prepared, initial, bootstrapped, app_state, start}

module _ (c : Cedar) {E : Type 0} (net : Net E) (w : World c net) where
  -- The line of the first load: at risk when a check has warned of anything.
  abbrev pub bootstrap_line : Prepared c net → Line
  bootstrap_line p =
      let current = p.engine.current in
      policy_set_line (
        policy_set w.now current.generation (not (is_empty p.warnings))
          (loaded current.content_hash (map w.display current.files)))

  -- What the server begins with: the engine, that line alone in the trail, and no reload yet.
  abbrev pub first_state : Prepared c net → AppState c
  first_state p = record {
    engine = p.engine;
    config = p.paths.config;
    audit = bootstrap_line p ∷ [];
    last_reload = none;
  }

  pub data Order (p : Prepared c net) (r : Run (Event c net) (Failure c net) (Unit {0}))
      : Type 0 where
    unopened :
        (x : Failure c net)
        → open_audit c net w p.paths.config.audit_log ≡ err x
        → r ≡ record { did = opening p.paths.config.audit_log ∷ []; result = err x }
        → Order p r
    unwatched :
        (sink : Sink)
        → (x : E) → open_audit c net w p.paths.config.audit_log ≡ ok sink
        → w.watch p.engine.policy_dir ≡ err x
        → r ≡ record {
          did = opening p.paths.config.audit_log ∷ wrote (bootstrap_line p) ∷ [];
          result = err (no_watcher x);
        }
        → Order p r
    served :
        (sink : Sink)
        → open_audit c net w p.paths.config.audit_log ≡ ok sink
        → w.watch p.engine.policy_dir ≡ ok tt
        → (let over = serve c net (first_state p) p.paths.config.bind in
            (r.did
              ≡ opening p.paths.config.audit_log
                ∷ wrote (bootstrap_line p)
                ∷ watching p.engine.policy_dir
                ∷ map listen over.did)
            × Transport c net (first_state p) p.paths.config.bind over)
        → Order p r

  -- When the checks have passed, the daemon opens the audit log, records the load that it serves
  -- from, watches the directory, and only then turns to the listener, on the transport that is
  -- configured and verified; the record says at risk exactly when a check had warned. Each step that
  -- fails ends the run, with none of the later ones.
  pub start-Order : (p : Prepared c net) → Order p (start c net w p)
  unfolding start ◌>>=◌ after lift act act_all inside bootstrapped initial record_bootstrap
      app_state
  start-Order p = elim (Result-cases (open_audit c net w p.paths.config.audit_log)) [
    | inl (x, e) ↦ unopened x e (rw (start, e) refl)
    | inr (sink, e) ↦ elim (Result-cases (w.watch p.engine.policy_dir)) [
      | inl (x, d) ↦ unwatched sink x e d (rw (start, e, d) refl)
      | inr (u, d) ↦
          served sink e d
            (rw (start, e, d) refl, serve-Transport c net (first_state p) p.paths.config.bind)
    ]
  ]
