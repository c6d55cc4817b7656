-- ===== src/Process.antt =====
-- What the process of src/main.rs meets outside, how it can fail, and the steps that its commands
-- share. A path is a text in the configuration, and the file system's form of it is parsed from that.
use nono_cedar_pdp.Base.{ℕ, Option, none, some, Text, Bytes, Result, ok, err, map_err}
use nono_cedar_pdp.Config.{Config, RawConfig, ConfigError, Tls, SocketAddr}
use nono_cedar_pdp.Wire.{WebhookEnvelope}
use nono_cedar_pdp.Adapter.{AdaptError}
use nono_cedar_pdp.Audit.{Line}
use nono_cedar_pdp.Audit.LogFile.{Found}
use nono_cedar_pdp.Audit.Sink.{Sink, open_sink}
use nono_cedar_pdp.Cedar.{Cedar}
use nono_cedar_pdp.Loader.{Listing, Env, PolicyLoadError}
use nono_cedar_pdp.FilePaths.{FilePath, Fs}
use nono_cedar_pdp.Isolation.{IsolationError, Warning}
use nono_cedar_pdp.Engine.{Engine, bootstrap}
use nono_cedar_pdp.Server.{AppState}
use nono_cedar_pdp.Server.Tls.{Net, ListenError}
use nono_cedar_pdp.Server.Listen.{serve}

module _ (c : Cedar) {E : Type 0} (net : Net E) where
  open c use {Schema}

  -- What the process meets outside.
  pub record World : Type 0 where
    -- `Config::load`'s readers, and HOME
    pub read_to_string : Text → Result E Text
    pub from_str : Text → Result E RawConfig
    pub home : Option Text
    -- The file system, and paths as texts
    pub fs : Fs E
    pub path_of : Text → FilePath
    pub text_of : FilePath → Text
    -- `Schema::from_cedarschema_str` on the embedded schema
    pub compiled : Result Text Schema
    -- A load of a directory: the environment, and what it finds there
    pub env : Env
    pub listing : Text → Listing E
    -- The audit log at its path, and `notify`'s watch of a directory
    pub found : Text → Found
    pub watch : Text → Result E (Unit {0})
    -- The clock's answers, and paths and texts as they are shown
    pub now : Text
    pub eval_us : ℕ
    pub display : Bytes → Text
    pub debug : Text → Text
    -- `std::fs::read`, and serde's reader
    pub read : Text → Result E Bytes
    pub parse_envelope : Bytes → Result E WebhookEnvelope

  -- What a command prints behind `FAIL:`, by the step that failed.
  pub data Failure : Type 0 where
    bad_config : ConfigError E E → Failure
    unresolved_policy_dir unresolved_cert unresolved_key : Text → Failure
    untrusted : IsolationError E → Failure
    bad_schema : Text → Failure
    bad_policies : PolicyLoadError E → Failure
    no_audit_log : Text → Failure
    no_watcher : E → Failure
    not_serving : SocketAddr → ListenError E → Failure
    bad_fixture : E → Failure
    bad_body : AdaptError E → Failure

  pub data Event : Type 0 where
    warned : Warning → Event
    opening watching : Text → Event
    wrote : Line → Event
    listen : nono_cedar_pdp.Server.Listen.Event c net → Event

  -- `cedar::schema::load`
  unfoldable pub load_schema : World → Result Failure Schema
  load_schema w = map_err bad_schema w.compiled

  -- `Config::load`
  unfoldable pub load_config : World → Text → Result Failure Config
  load_config w path =
      map_err bad_config (nono_cedar_pdp.Config.load w.read_to_string w.from_str w.home path)

  -- `std::fs::canonicalize` on a configured path.
  unfoldable pub canonicalize : World → (Text → Failure) → Text → Result Failure FilePath
  canonicalize w failure path = elim (w.fs.canonicalize (w.path_of path)) [
    | none ↦ err (failure path)
    | some resolved ↦ ok resolved
  ]

  -- The schema, and the engine on a directory.
  unfoldable pub boot : World → Text → Result Failure (Engine c)
  boot w dir = elim (load_schema w) [
    | err e ↦ err e
    | ok schema ↦ map_err bad_policies (bootstrap c w.env schema dir (w.listing dir))
  ]

  -- `AuditLog::open`
  unfoldable pub open_audit : World → Text → Result Failure Sink
  open_audit w path = elim (open_sink (w.found path)) [
    | none ↦ err (no_audit_log path)
    | some sink ↦ ok sink
  ]
