-- ===== src/Main.antt =====
-- src/main.rs: the three commands. A run's events are
-- the warnings it prints and the calls that change something outside, in order; `wrote` is a line that is
-- handed to `AuditLog::append`.
pub mod Startup
pub mod Order
pub mod Commands
use nono_cedar_pdp.Base.{
  ℕ, if◌then◌else◌, Bool, true, false, not, Option, none, some, List, [], ◌∷◌, ◌++◌, map, Text,
  Bytes, Result, ok, err, map_err,
}
use nono_cedar_pdp.Run.{Run, pure, lift, act, act_all, inside, ◌>>=◌}
use nono_cedar_pdp.Config.{Config, RawConfig, ConfigError, Tls, SocketAddr}
use nono_cedar_pdp.Wire.{WebhookEnvelope}
use nono_cedar_pdp.Adapter.{AdaptError, parse}
use nono_cedar_pdp.Decision.{Decision}
use nono_cedar_pdp.Audit.{Line, decision_line, decided, policy_set_line}
use nono_cedar_pdp.Audit.LogFile.{Found}
use nono_cedar_pdp.Audit.Sink.{Sink, open_sink}
use nono_cedar_pdp.Cedar.{Cedar}
use nono_cedar_pdp.Loader.{Listing, Env, PolicyLoadError, load_dir}
use nono_cedar_pdp.FilePaths.{FilePath, Fs, is_empty, resolve_existing_prefix}
use nono_cedar_pdp.Isolation.{IsolationError, Warning, check, check_private_key}
use nono_cedar_pdp.Engine.{Engine, bootstrap, evaluate}
use nono_cedar_pdp.Server.{AppState}
use nono_cedar_pdp.Server.Tls.{Net, ListenError}
use nono_cedar_pdp.Server.Listen.{serve}
use nono_cedar_pdp.Process.{
  World, Failure, bad_config, unresolved_policy_dir, unresolved_cert, unresolved_key, untrusted,
  bad_schema, bad_policies, no_audit_log, no_watcher, not_serving, bad_fixture, bad_body, Event,
  warned, opening, watching, wrote, listen, load_schema, load_config, canonicalize, boot,
  open_audit,
}
use nono_cedar_pdp.Watcher.{Watch, record_bootstrap}

module _ (c : Cedar) {E : Type 0} (net : Net E) where
  -- The loop over the pair.
  unfoldable pub resolve_tls :
      World c net → Option Tls → Run (Event c net) (Failure c net) (Option (FilePath × FilePath))
  resolve_tls w none = pure none
  resolve_tls w (some tls) = do
    cert ← lift (canonicalize c net w unresolved_cert tls.cert)
    key ← lift (canonicalize c net w unresolved_key tls.key)
    pure (some (cert, key))

  unfoldable pub tls_of : World c net → Option (FilePath × FilePath) → Option Tls
  tls_of w none = none
  tls_of w (some (cert, key)) = some (record { cert = w.text_of cert; key = w.text_of key })

  -- The check of the private key, where there is one.
  unfoldable pub check_key :
      World c net → Option (FilePath × FilePath) → Result (Failure c net) (List Warning)
  check_key w none = ok []
  check_key w (some (cert, key)) = map_err untrusted (check_private_key w.fs key w.fs.current_dir)

  -- The configuration with its resolved paths, and these paths themselves.
  pub record Paths : Type 0 where
    pub config : Config
    pub policy_dir : FilePath
    pub audit_log : FilePath
    pub tls : Option (FilePath × FilePath)

  -- The first part of `run_serve`: the configured paths are resolved once.
  unfoldable pub resolve_paths : World c net → Text → Run (Event c net) (Failure c net) Paths
  resolve_paths w path = do
    config ← lift (load_config c net w path)
    policy_dir ← lift (canonicalize c net w unresolved_policy_dir config.policy_dir)
    let audit_log = resolve_existing_prefix w.fs (w.path_of config.audit_log)
    tls ← resolve_tls w config.tls
    pure (record {
      config = record config {
        policy_dir = w.text_of policy_dir;
        audit_log = w.text_of audit_log;
        tls = tls_of w tls;
      };
      policy_dir = policy_dir;
      audit_log = audit_log;
      tls = tls;
    })

  -- The second: the checks, each of whose warnings are printed before the next.
  unfoldable pub check_paths :
      World c net → Paths → Run (Event c net) (Failure c net) (List Warning)
  check_paths w paths = do
    warnings ←
        lift (map_err untrusted (check w.fs paths.policy_dir paths.audit_log w.fs.current_dir))
    told ← act_all (map warned warnings)
    key_warnings ← lift (check_key w paths.tls)
    told_key ← act_all (map warned key_warnings)
    pure (warnings ++ key_warnings)

  -- What `run_serve` holds when all that has succeeded.
  pub record Prepared : Type 0 where
    pub paths : Paths
    pub warnings : List Warning
    pub engine : Engine c

  -- `run_serve` up to the engine: nothing is opened and nothing bound.
  unfoldable pub prepare : World c net → Text → Run (Event c net) (Failure c net) Prepared
  prepare w path = do
    paths ← resolve_paths w path
    warnings ← check_paths w paths
    engine ← lift (boot c net w paths.config.policy_dir)
    pure (record { paths = paths; warnings = warnings; engine = engine })

  -- What the watch thread and the server share when it starts.
  unfoldable pub initial : Prepared → Watch c
  initial p = record {
    engine = p.engine;
    at_risk = not (is_empty p.warnings);
    audit = [];
    last_reload = none;
  }

  unfoldable pub bootstrapped : World c net → Prepared → Watch c
  unfolding initial
  bootstrapped w p = record_bootstrap c w.display w.now p.engine.current (initial p)

  unfoldable pub app_state : Prepared → Watch c → AppState c
  app_state p watch = record {
    engine = watch.engine;
    config = p.paths.config;
    audit = watch.audit;
    last_reload = watch.last_reload;
  }

  -- `run_serve` behind the engine.
  unfoldable pub start : World c net → Prepared → Run (Event c net) (Failure c net) (Unit {0})
  start w p = do
    opened ← act (opening p.paths.config.audit_log)
    sink ← lift (open_audit c net w p.paths.config.audit_log)
    let watch = bootstrapped w p
    recorded ← act_all (map wrote watch.audit)
    watched ← lift (map_err no_watcher (w.watch p.engine.policy_dir))
    watches ← act (watching p.engine.policy_dir)
    let bind = p.paths.config.bind
    inside listen (not_serving bind) (serve c net (app_state p watch) bind)

  -- `run_serve`
  unfoldable pub run_serve : World c net → Text → Run (Event c net) (Failure c net) (Unit {0})
  run_serve w path = prepare w path >>= start w

  -- `run_validate`
  unfoldable pub run_validate : World c net → Text → Run (Event c net) (Failure c net) ℕ
  run_validate w path = do
    config ← lift (load_config c net w path)
    schema ← lift (load_schema c net w)
    loaded ← lift (
        map_err bad_policies
          (load_dir c w.env config.policy_dir (w.listing config.policy_dir) schema 1))
    pure (c.num_of_policies loaded.set)

  -- The `if audit` of `run_check`: a log that cannot be opened is no failure.
  unfoldable pub audit_check :
      World c net → Bool → Text → Line → Run (Event c net) (Failure c net) (Unit {0})
  audit_check w false path line = pure tt
  audit_check w true path line = elim (open_audit c net w path) [
    | err e ↦ act (opening path)
    | ok sink ↦ act_all (opening path ∷ wrote line ∷ [])
  ]

  -- `run_check`
  unfoldable pub run_check :
      World c net → Text → Text → Bool → Run (Event c net) (Failure c net) Decision
  run_check w path fixture audit = do
    config ← lift (load_config c net w path)
    engine ← lift (boot c net w config.policy_dir)
    bytes ← lift (map_err bad_fixture (w.read fixture))
    query ← lift (map_err bad_body (parse w.parse_envelope bytes config))
    let decision = evaluate c w.debug w.eval_us engine query
    recorded ←
        audit_check w audit config.audit_log
          (decision_line (decided w.debug w.now query decision none))
    pure decision

  -- `Command`
  pub data Command : Type 0 where
    validate serve_command : Text → Command
    check_command : Text → Text → Bool → Command

  -- `std::process::ExitCode`
  pub data ExitCode : Type 0 where
    success failure : ExitCode

  -- The exit code of a command: an error fails, and what becomes of a result is the command's own.
  unfoldable pub exit :
      {A : Type 0}
      → (A → ExitCode)
      → Run (Event c net) (Failure c net) A
      → List (Event c net) × ExitCode
  exit code r = elim r.result [ ok a ↦ (r.did, code a) | err e ↦ (r.did, failure) ]

  -- `main`, behind the argument parser and a runtime that starts.
  unfoldable pub main : World c net → Command → List (Event c net) × ExitCode
  unfolding exit
  main w (validate path) = exit (λ n. success) (run_validate w path)
  main w (serve_command path) = exit (λ u. success) (run_serve w path)
  main w (check_command path fixture audit) =
      exit (λ d. if d.allow then success else failure) (run_check w path fixture audit)
