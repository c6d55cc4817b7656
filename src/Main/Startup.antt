-- ===== src/Main/Startup.antt =====
-- `run_serve` of src/main.rs: what has passed before anything is opened, and what happens then.
use nono_cedar_pdp.Base.{
  ◌≡◌, refl, sym, ap, ◌∙◌, subst, inl, inr, true, Option, none, some, Option-cases, List, [], ◌∷◌,
  ◌++◌, append-nil, map, All, Text, ok, err, map_err-eq_ok, ok-injective, Result-cases, err_ne,
}
use nono_cedar_pdp.Run.{
  Run, pure, after, ◌>>=◌, Only, did_nothing, bind-Only, lift-Only, pure-Only, bind_result, front,
  bind_lift, bind_act_all, pure_result, act_all-Only,
}
use nono_cedar_pdp.Config.{Config, Tls, is_loopback, load}
use nono_cedar_pdp.Config.Laws.{load-eq_ok}
use nono_cedar_pdp.Cedar.{Cedar}
use nono_cedar_pdp.FilePaths.{FilePath, resolve_existing_prefix}
use nono_cedar_pdp.Isolation.{Warning, check}
use nono_cedar_pdp.Isolation.Judgements.{SafeAncestor, ancestors}
use nono_cedar_pdp.Isolation.Laws.{IsTrusted, SafeLog}
use nono_cedar_pdp.FilePaths.Resolution.{IsResolver}
use nono_cedar_pdp.Isolation.Startup.{IsSafeKey, check-resolved, check_private_key-resolved}
use nono_cedar_pdp.Engine.{Engine, bootstrap}
use nono_cedar_pdp.Loader.Laws.{IsLoad}
use nono_cedar_pdp.Engine.Reload.{
  bootstrap-IsLoad, IsServing, bootstrap-IsServing, bootstrap-policy_dir,
}
use nono_cedar_pdp.Server.Tls.{Net}
use nono_cedar_pdp.Process.{
  World, Failure, Event, warned, canonicalize, load_config, load_schema, boot,
  unresolved_policy_dir, unresolved_key, untrusted, bad_policies, bad_config,
}
use nono_cedar_pdp.Main.{
  resolve_tls, tls_of, check_key, Paths, resolve_paths, check_paths, Prepared, prepare, start,
  run_serve,
}

module _ (c : Cedar) {E : Type 0} (net : Net E) (w : World c net) where
  -- The private key, if there is one, is safe.
  abbrev pub KeysSafe : Option (FilePath × FilePath) → Type 0
  KeysSafe none = Unit
  KeysSafe (some (cert, key)) = IsSafeKey w.fs key

  -- What has passed before the audit log is opened: the daemon is to listen on a loopback address,
  -- the paths it will use are the resolved ones, and it is these that were checked; and the engine
  -- serves a set from this directory that is not empty and passed validation.
  pub record IsResolved (path : Text) (p : Paths c net) : Type 0 where
    pub configured : Config
    pub loaded : load_config c net w path ≡ ok configured
    pub bind : p.config.bind ≡ configured.bind
    pub loopback : is_loopback p.config.bind.ip ≡ true
    pub policy_dir : w.fs.canonicalize (w.path_of configured.policy_dir) ≡ some p.policy_dir
    pub audit_log : p.audit_log ≡ resolve_existing_prefix w.fs (w.path_of configured.audit_log)
    pub pair : (resolve_tls c net w configured.tls).result ≡ ok p.tls
    pub dir_text : p.config.policy_dir ≡ w.text_of p.policy_dir
    pub log_text : p.config.audit_log ≡ w.text_of p.audit_log
    pub tls_text : p.config.tls ≡ tls_of c net w p.tls

  pub record IsGuarded (p : Paths c net) : Type 0 where
    pub trusted : IsTrusted w.fs p.policy_dir
    pub log_above : All (SafeAncestor w.fs) (ancestors p.audit_log)
    pub log : SafeLog w.fs p.audit_log
    pub keys : KeysSafe p.tls

  pub record Cleared (path : Text) (p : Prepared c net) : Type 0 where
    pub resolved : IsResolved path p.paths
    pub guarded : IsGuarded p.paths
    pub serving : IsServing c p.engine
    pub from_dir : p.engine.policy_dir ≡ w.text_of p.paths.policy_dir
    pub read_whole :
        IsLoad c w.env p.engine.schema (w.listing (w.text_of p.paths.policy_dir)) 1 p.engine.current

  abbrev pub IsWarning : Event c net → Type 0
  IsWarning (warned x) = Unit
  IsWarning _ = ⊥

  map-IsWarning : (ws : List Warning) → All IsWarning (map warned ws)
  map-IsWarning [] = tt
  map-IsWarning (x ∷ ws) = (tt, map-IsWarning ws)

  resolve_tls-Only : (P : Event c net → Type 0) (t : Option Tls) → Only P (resolve_tls c net w t)
  unfolding resolve_tls
  resolve_tls-Only P none = pure-Only none
  resolve_tls-Only P (some t) =
      bind-Only (lift-Only _) (λ cert h. bind-Only (lift-Only _) (λ key h. pure-Only _))

  -- The paths are resolved with nothing done outside.
  resolve_paths-Only :
      (P : Event c net → Type 0) (path : Text) → Only P (resolve_paths c net w path)
  unfolding resolve_paths
  resolve_paths-Only P path = bind-Only (lift-Only _) (λ config h.
      bind-Only (lift-Only _)
        (λ dir h. bind-Only (resolve_tls-Only P config.tls) (λ tls h. pure-Only _)))

  check_paths-Only : (p : Paths c net) → Only IsWarning (check_paths c net w p)
  unfolding check_paths
  check_paths-Only p = bind-Only (lift-Only _) (λ ws h.
      bind-Only (act_all-Only _ (map-IsWarning ws)) (λ u h.
        bind-Only (lift-Only _)
          (λ ks h. bind-Only (act_all-Only _ (map-IsWarning ks)) (λ u h. pure-Only _))))

  prepare-Only : (path : Text) → Only IsWarning (prepare c net w path)
  unfolding prepare
  prepare-Only path = bind-Only (resolve_paths-Only IsWarning path) (λ paths h.
      bind-Only (check_paths-Only paths) (λ ws h. bind-Only (lift-Only _) (λ e h. pure-Only _)))

  canonicalize_result :
      (failure : Text → Failure c net) (path : Text) {p : FilePath}
      → canonicalize c net w failure path ≡ ok p
      → w.fs.canonicalize (w.path_of path) ≡ some p
  unfolding canonicalize
  canonicalize_result failure path h = elim (Option-cases (w.fs.canonicalize (w.path_of path))) [
    | inl e ↦ absurd (err_ne (rw (canonicalize, e) at h))
    | inr (r, e) ↦ e ∙ ap some (ok-injective (rw (canonicalize, e) at h))
  ]

  resolve_paths-IsResolved :
      (path : Text) (p : Paths c net)
      → (resolve_paths c net w path).result ≡ ok p
      → IsResolved path p
  unfolding resolve_paths load_config
  resolve_paths-IsResolved path p h =
      let (config, c1, h1, d1) = bind_lift _ _ h in
      let (dir, c2, h2, d2) = bind_lift _ _ h1 in
      let (tls, c3, h3, d3) = bind_result _ _ h2 in
      let (text, raw, r1, r2, r3, loop) =
        (load-eq_ok w.read_to_string w.from_str w.home path config).0
          (map_err-eq_ok bad_config (load w.read_to_string w.from_str w.home path) c1) in
      subst (IsResolved path) (pure_result (Event c net) (Failure c net) _ h3) (record {
        configured = config;
        loaded = c1;
        bind = refl;
        loopback = loop;
        policy_dir = canonicalize_result unresolved_policy_dir config.policy_dir c2;
        audit_log = refl;
        pair = c3;
        dir_text = refl;
        log_text = refl;
        tls_text = refl;
      })

  told :
      (xs ys : List Warning) {zs : List Warning}
      → xs ++ ys ≡ zs
      → ◌≡◌ {A = List (Event c net)} (map warned xs ++ (map warned ys ++ [])) (map warned zs)
  told [] ys q = append-nil (map warned ys) ∙ ap (map warned) q
  told (x ∷ xs) ys q = ap (◌∷◌ (warned x)) (told xs ys refl) ∙ ap (map warned) q

  check_paths_warned :
      (p : Paths c net) (ws : List Warning)
      → (check_paths c net w p).result ≡ ok ws
      → (ws1 : List Warning) × (ws2 : List Warning) × (check w.fs p.policy_dir p.audit_log
            w.fs.current_dir
          ≡ ok ws1)
        × (check_key c net w p.tls ≡ ok ws2)
        × ((check_paths c net w p).did ≡ map warned ws)
  unfolding check_paths pure
  check_paths_warned p ws h =
      let (ws1, c1, h1, d1) = bind_lift _ _ h in
      let (h2, d2) = bind_act_all _ _ h1 in
      let (ws2, c3, h3, d3) = bind_lift _ _ h2 in
      let (h4, d4) = bind_act_all _ _ h3 in
      (
        ws1,
        ws2,
        map_err-eq_ok untrusted _ c1,
        c3,
        d1
            ∙ d2
            ∙ ap (λ x. map warned ws1 ++ x) (d3 ∙ d4)
            ∙ told ws1 ws2 (pure_result (Event c net) (Failure c net) (ws1 ++ ws2) h4),
      )

  pub boot-IsServing :
      (dir : Text) {e : Engine c} → boot c net w dir ≡ ok e → IsServing c e × (e.policy_dir ≡ dir)
  unfolding boot
  boot-IsServing dir h = elim (Result-cases (load_schema c net w)) [
    | inl (x, q) ↦ absurd (err_ne (rw (boot, q) at h))
    | inr (s, q) ↦
        let k =
          map_err-eq_ok bad_policies (bootstrap c w.env s dir (w.listing dir))
            (rw (boot, q) at h) in
        (
          bootstrap-IsServing c w.env s dir (w.listing dir) k,
          bootstrap-policy_dir c w.env s dir (w.listing dir) k,
        )
  ]

  pub boot-IsLoad :
      (dir : Text) {e : Engine c}
      → boot c net w dir ≡ ok e
      → IsLoad c w.env e.schema (w.listing dir) 1 e.current
  unfolding boot
  boot-IsLoad dir h = elim (Result-cases (load_schema c net w)) [
    | inl (x, q) ↦ absurd (err_ne (rw (boot, q) at h))
    | inr (s, q) ↦
        bootstrap-IsLoad c w.env s dir (w.listing dir)
          (map_err-eq_ok bad_policies (bootstrap c w.env s dir (w.listing dir)) (rw (boot, q) at h))
  ]

  -- How a run of the daemon goes: it is refused with nothing done but warnings printed, or it is
  -- cleared, its warnings are out, and then it starts.
  pub data Course (path : Text) (r : Run (Event c net) (Failure c net) (Unit {0})) : Type 0 where
    refused : (x : Failure c net) → r.result ≡ err x → All IsWarning r.did → Course path r
    cleared :
        (p : Prepared c net)
        → Cleared path p
        → r.did ≡ map warned p.warnings ++ (start c net w p).did
        → r.result ≡ (start c net w p).result
        → Course path r

  module _ (resolver : IsResolver w.fs) where
    -- The pair that is resolved, and a check of its key that passed.
    resolve_tls-KeysSafe :
        (t : Option Tls) (tls : Option (FilePath × FilePath)) (ks : List Warning)
        → (resolve_tls c net w t).result ≡ ok tls
        → check_key c net w tls ≡ ok ks
        → KeysSafe tls
    unfolding resolve_tls check_key
    resolve_tls-KeysSafe none tls ks h k =
        subst KeysSafe (pure_result (Event c net) (Failure c net) none h) tt
    resolve_tls-KeysSafe (some t) tls ks h k =
        let (cert, c1, h1, d1) = bind_lift _ _ h in
        let (key, c2, h2, d2) = bind_lift _ _ h1 in
        let q : some (cert, key) ≡ tls =
          pure_result (Event c net) (Failure c net) (some (cert, key)) h2 in
        let kept = subst (λ t. check_key c net w t ≡ ok ks) (sym q) k in
        subst KeysSafe q (
          check_private_key-resolved w.fs resolver (w.path_of t.key) key w.fs.current_dir ks
            (canonicalize_result unresolved_key t.key c2)
            (map_err-eq_ok (Failure.untrusted) _ kept))

    check_paths-IsGuarded :
        (path : Text) (p : Paths c net) (ws : List Warning)
        → IsResolved path p
        → (check_paths c net w p).result ≡ ok ws
        → IsGuarded p
    check_paths-IsGuarded path p ws r h =
        let (ws1, ws2, k1, k2, d) = check_paths_warned p ws h in
        let q = r.audit_log in
        let (t, a, l) =
          check-resolved w.fs resolver (w.path_of r.configured.policy_dir) p.policy_dir
            (w.path_of r.configured.audit_log) ws1 r.policy_dir
            (subst (λ x. check w.fs p.policy_dir x w.fs.current_dir ≡ ok ws1) q k1) in
        record {
          trusted = t;
          log_above = subst (λ x. All (SafeAncestor w.fs) (ancestors x)) (sym q) a;
          log = subst (SafeLog w.fs) (sym q) l;
          keys = resolve_tls-KeysSafe r.configured.tls p.tls ws2 r.pair k2;
        }

    pub prepare-Cleared :
        (path : Text) (p : Prepared c net)
        → (prepare c net w path).result ≡ ok p
        → Cleared path p × ((prepare c net w path).did ≡ map warned p.warnings)
    unfolding prepare pure
    prepare-Cleared path p h =
        let (paths, c1, h1, d1) = bind_result _ _ h in
        let (ws, c2, h2, d2) = bind_result _ _ h1 in
        let (e, c3, h3, d3) = bind_lift _ _ h2 in
        let q = pure_result (Event c net) (Failure c net) _ h3 in
        let r = resolve_paths-IsResolved path paths c1 in
        let (s, f) = boot-IsServing paths.config.policy_dir c3 in
        let (ws1, ws2, k1, k2, d) = check_paths_warned paths ws c2 in
        let silent = did_nothing (resolve_paths c net w path) (resolve_paths-Only (λ e. ⊥) path) in
        subst (λ p. Cleared path p × ((prepare c net w path).did ≡ map warned p.warnings)) q
          (
            record {
              resolved = r;
              guarded = check_paths-IsGuarded path paths ws r c2;
              serving = s;
              from_dir = f ∙ r.dir_text;
              read_whole =
                  subst (λ dir. IsLoad c w.env e.schema (w.listing dir) 1 e.current) r.dir_text
                    (boot-IsLoad paths.config.policy_dir c3);
            },
            front _ d1 silent
                ∙ front _ d2 d
                ∙ ap (λ x. map warned ws ++ x) d3
                ∙ append-nil (map warned ws),
          )

    -- The daemon opens, writes, watches, binds or answers nothing before all this has passed: the
    -- configuration is read and names a loopback address, both state paths and the TLS pair are
    -- resolved, the policy directory is trusted, the audit log and the private key are safe, and the
    -- directory's policies were read whole, are not none, and passed validation. Otherwise it ends in
    -- an error, and all it has done is to print warnings. The file system's resolution keeps to its
    -- laws.
    pub run_serve-Course : (path : Text) → Course path (run_serve c net w path)
    unfolding run_serve ◌>>=◌ after
    run_serve-Course path = elim (Result-cases (prepare c net w path).result) [
      | inl (x, e) ↦ refused x (rw (after, e) refl) (rw (after, e) (prepare-Only path).events)
      | inr (p, e) ↦
          let (k, d) = prepare-Cleared path p e in
          cleared p k (rw (after, e) (ap (λ x. x ++ (start c net w p).did) d)) (rw (after, e) refl)
    ]
