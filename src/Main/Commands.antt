-- ===== src/Main/Commands.antt =====
-- `run_validate` and `run_check` of src/main.rs against what the daemon does with the same policies.
use nono_cedar_pdp.Base.{
  length, leb, lit, ◌≢◌, ℕ, if◌then◌else◌, ◌≡◌, ◌↔◌, refl, sym, ap, ◌∙◌, inl, inr, Bool, true,
  false, Bool-cases, Option, none, some, List, ◌==◌, arith, Text, Bytes, ok, err, map_err-eq_ok,
  Result-cases,
}
use nono_cedar_pdp.Run.{Run, pure, lift, act, act_all, after, ◌>>=◌, bind_lift, pure_result}
use nono_cedar_pdp.Wire.{allow}
use nono_cedar_pdp.Config.{Config, is_loopback, load}
use nono_cedar_pdp.Config.Laws.{load-eq_ok}
use nono_cedar_pdp.Loader.Complete.{IsLoad-load_dir}
use nono_cedar_pdp.Loader.Laws.{IsLoad, load_dir-eq_ok}
use nono_cedar_pdp.Json.{JsonReader}
use nono_cedar_pdp.Adapter.{AdaptError, deny_reason, parse}
use nono_cedar_pdp.Decision.{Decision, deny_with, to_wire}
use nono_cedar_pdp.Decision.Laws.{to_wire_iff}
use nono_cedar_pdp.Audit.{Line}
use nono_cedar_pdp.Cedar.{Cedar}
use nono_cedar_pdp.Loader.{LoadedPolicies, load_dir}
use nono_cedar_pdp.Engine.{Engine, evaluate}
use nono_cedar_pdp.Server.{
  HeaderMap, Outside, Reply, wire, AppState, LastReload, header_gate, max_request_bytes, unreadable,
  refused, answer, log, approve,
}
use nono_cedar_pdp.Server.Replies.{wire-injective, deny_ne}
use nono_cedar_pdp.Server.Tls.{Net}
use nono_cedar_pdp.Process.{
  World, Failure, Event, bad_config, bad_body, bad_policies, load_config, load_schema, boot,
  open_audit,
}
use nono_cedar_pdp.Main.{
  audit_check, run_check, run_validate, exit, main, ExitCode, success, failure, check_command,
}
use nono_cedar_pdp.Main.Startup.{boot-IsServing}

module _ (c : Cedar) {E : Type 0} (net : Net E) (w : World c net) where
  -- A request that meets the same outside as the command.
  abbrev pub outside_of : JsonReader → (Bytes → Text) → Outside E
  outside_of json lossy = record {
    lossy = lossy;
    debug = w.debug;
    parse_envelope = w.parse_envelope;
    json = json;
    ts = w.now;
    eval_us = w.eval_us;
  }

  abbrev pub ok_wire : Decision → Reply
  ok_wire d = record { status = 200; body = wire (to_wire d) }

  -- `axum::body::to_bytes` of a body that arrives whole.
  abbrev pub arrived : Bytes → ℕ → Option Bytes
  arrived bytes limit = if leb (length bytes) limit then some bytes else none

  -- How `check` and the daemon compare on a body. Only the daemon has a limit on its length.
  pub data Alike (bytes : Bytes) (r : Run (Event c net) (Failure c net) Decision) (reply : Reply)
      : Type 0 where
    decided_alike :
        (d : Decision)
        → leb (length bytes) max_request_bytes ≡ true
        → r.result ≡ ok d
        → reply ≡ ok_wire d
        → Alike bytes r reply
    refused_alike :
        (x : AdaptError E)
        → leb (length bytes) max_request_bytes ≡ true
        → r.result ≡ err (bad_body x)
        → reply ≡ ok_wire (deny_with (deny_reason x))
        → Alike bytes r reply
    too_large :
        leb (length bytes) max_request_bytes ≡ false
        → reply
          ≡ ok_wire (
              deny_with (
                lit
                  "approval request body was unreadable or above the 1048576-byte limit; failing closed"))
        → Alike bytes r reply

  exit_ok :
      (code : Decision → ExitCode c net) (r : Run (Event c net) (Failure c net) Decision)
      {d : Decision}
      → r.result ≡ ok d
      → (exit c net code r).1 ≡ code d
  unfolding exit
  exit_ok code r q = rw (exit, q) refl

  exit_err :
      (code : Decision → ExitCode c net) (r : Run (Event c net) (Failure c net) Decision)
      {x : Failure c net}
      → r.result ≡ err x
      → (exit c net code r).1 ≡ failure
  unfolding exit
  exit_err code r q = rw (exit, q) refl

  failure_ne : ◌≡◌ {A = ExitCode c net} failure success → ⊥
  failure_ne h = cc

  code_iff :
      (b : Bool) → (◌≡◌ {A = ExitCode c net} (if b then success else failure) success) ↔ (b ≡ true)
  code_iff true = (λ h. refl, λ h. refl)
  code_iff false = (λ h. absurd (failure_ne h), λ h. absurd (cc))

  exit-Alike :
      (bytes : Bytes) (r : Run (Event c net) (Failure c net) Decision) (reply : Reply)
      → leb (length bytes) max_request_bytes ≡ true
      → Alike bytes r reply
      → ((exit c net (λ d. if d.allow then success else failure) r).1 ≡ success)
        ↔ (reply.body ≡ wire allow)
  exit-Alike bytes r reply fits (decided_alike d m q e) =
      let k = exit_ok (λ d. if d.allow then success else failure) r q in
      let body = ap (λ x. x.body) e in
      (
        λ h. body ∙ ap wire ((to_wire_iff d).0.1 ((code_iff d.allow).0 (sym k ∙ h))),
        λ h. k ∙ (code_iff d.allow).1 ((to_wire_iff d).0.0 (wire-injective (sym body ∙ h))),
      )
  exit-Alike bytes r reply fits (too_large m e) = absurd (cc)
  exit-Alike bytes r reply fits (refused_alike x m q e) =
      let k = exit_err (λ d. if d.allow then success else failure) r q in
      (
        λ h. absurd (failure_ne (sym k ∙ h)),
        λ h. absurd (deny_ne (deny_reason x) (sym (ap (λ x. x.body) e) ∙ h)),
      )

  audit_check_ok :
      (audit : Bool) (path : Text) (line : Line)
      → (audit_check c net w audit path line).result ≡ ok tt
  unfolding audit_check pure act act_all
  audit_check_ok false path line = refl
  audit_check_ok true path line = elim (Result-cases (open_audit c net w path)) [
    | inl (x, e) ↦ rw (audit_check, e) refl
    | inr (s, e) ↦ rw (audit_check, e) refl
  ]

  module _ (json : JsonReader) (lossy : Bytes → Text) (headers : HeaderMap) (path fixture : Text)
      (audit : Bool) (config : Config) (engine : Engine c) (bytes : Bytes) (trail : List Line)
      (last : Option LastReload) where
    abbrev pub state : AppState c
    state = record { engine = engine; config = config; audit = trail; last_reload = last }

    -- `check` decides a saved body as the daemon would: with the same configuration and the same
    -- policies, a request that gets through the header gate with that body is answered with the
    -- decision that `check` gives, and one that `check` cannot read is denied; but whatever `check`
    -- gives, the daemon denies a body above 1048576 bytes.
    pub run_check-approve :
        header_gate lossy headers ≡ none
        → load_config c net w path ≡ ok config
        → boot c net w config.policy_dir ≡ ok engine
        → w.read fixture ≡ ok bytes
        → Alike bytes
            (run_check c net w path fixture audit)
            (approve c (outside_of json lossy) headers (arrived bytes) state).1
    unfolding run_check ◌>>=◌ after lift pure approve unreadable refused answer log
    run_check-approve g l b f = elim (Bool-cases (leb (length bytes) max_request_bytes)) [
      | inr m ↦ too_large m (rw (approve, g, serving, m) refl)
      | inl m ↦ elim (Result-cases (parse w.parse_envelope bytes config)) [
        | inl (x, q) ↦
            refused_alike x m (rw (run_check, l, b, f, q) refl)
              (rw (approve, g, serving, m, q) refl)
        | inr (query, q) ↦
            decided_alike (evaluate c w.debug w.eval_us engine query) m
              (rw (run_check, l, b, f, q, after, audit_check_ok) refl)
              (rw (approve, g, serving, m, q) refl)
      ]
    ]
      where
        serving : (c.num_of_policies engine.current.set == 0) ≡ false
        serving = elim (Bool-cases (c.num_of_policies engine.current.set == 0)) [
          | inl z ↦
              absurd ((boot-IsServing c net w config.policy_dir b).0.not_empty (ground (arith, z)))
          | inr z ↦ z
        ]

    -- `check` exits with success exactly when the daemon, with the same configuration and policies,
    -- would answer a request with the saved body with allow. The request gets through the header gate,
    -- and the body is within the daemon's limit of 1048576 bytes.
    pub main-check_iff :
        header_gate lossy headers ≡ none
        → load_config c net w path ≡ ok config
        → boot c net w config.policy_dir ≡ ok engine
        → w.read fixture ≡ ok bytes
        → leb (length bytes) max_request_bytes ≡ true
        → ((main c net w (check_command path fixture audit)).1 ≡ success)
          ↔ ((approve c (outside_of json lossy) headers (arrived bytes) state).1.body ≡ wire allow)
    unfolding main
    main-check_iff g l b f fits =
        exit-Alike bytes (run_check c net w path fixture audit)
          (approve c (outside_of json lossy) headers (arrived bytes) state).1 fits
          (run_check-approve g l b f)

  -- What `validate` asks for: the configuration is read and names a loopback address, and the policies
  -- of its directory are a whole load that passed the guards.
  pub record Validated (path : Text) (n : ℕ) : Type 0 where
    pub config : Config
    pub configured : load_config c net w path ≡ ok config
    pub loopback : is_loopback config.bind.ip ≡ true
    pub schema : c.Schema
    pub compiled : load_schema c net w ≡ ok schema
    pub loaded : LoadedPolicies c
    pub read_whole : IsLoad c w.env schema (w.listing config.policy_dir) 1 loaded
    pub counted : c.num_of_policies loaded.set ≡ n
    pub not_none : n ≢ 0

  run_validate-Validated :
      (path : Text) (n : ℕ) → (run_validate c net w path).result ≡ ok n → Validated path n
  unfolding run_validate load_config
  run_validate-Validated path n h =
      let (config, l, h1, d1) = bind_lift _ _ h in
      let (s, q, h2, d2) = bind_lift _ _ h1 in
      let (ld, k, h3, d3) = bind_lift _ _ h2 in
      let dir = config.policy_dir in
      let (text, raw, r1, r2, r3, loop) =
        (load-eq_ok w.read_to_string w.from_str w.home path config).0
          (map_err-eq_ok bad_config (load w.read_to_string w.from_str w.home path) l) in
      let whole =
        load_dir-eq_ok c w.env dir (w.listing dir) s 1
          (map_err-eq_ok bad_policies (load_dir c w.env dir (w.listing dir) s 1) k) in
      let e = pure_result (Event c net) (Failure c net) _ h3 in
      record {
        config = config;
        configured = l;
        loopback = loop;
        schema = s;
        compiled = q;
        loaded = ld;
        read_whole = whole;
        counted = e;
        not_none = λ z. whole.is_checked.not_empty (e ∙ z);
      }

  Validated-run_validate :
      (path : Text) (n : ℕ) → Validated path n → (run_validate c net w path).result ≡ ok n
  unfolding run_validate ◌>>=◌ after lift pure
  Validated-run_validate path n v =
      let dir = v.config.policy_dir in
      let (m, k, e) =
        IsLoad-load_dir c w.env dir (w.listing dir) v.schema 1 v.loaded v.read_whole in
      rw (run_validate, v.configured, v.compiled, k) (ap ok (ap c.num_of_policies e ∙ v.counted))

  -- `validate` reports OK and a number exactly when the configuration is read and binds a loopback
  -- address, the schema compiles, every loadable file of the policy directory can be read, parsed and
  -- added to the set, and the set is not empty and passes strict validation; the number is that of the
  -- set's policies, and is not zero.
  pub run_validate-Validated_iff :
      (path : Text) (n : ℕ) → ((run_validate c net w path).result ≡ ok n) ↔ Validated path n
  run_validate-Validated_iff path n = (run_validate-Validated path n, Validated-run_validate path n)
