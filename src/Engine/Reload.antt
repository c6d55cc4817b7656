-- ===== src/Engine/Reload.antt =====
-- `Engine::reload` of src/cedar/engine.rs over a daemon's life.
use nono_cedar_pdp.Base.{
  ℕ, ◌≡◌, refl, sym, ap, subst, [], Text, Result, ok, err, bind-eq_ok, ok-injective,
}
use nono_cedar_pdp.Cedar.{Cedar}
use nono_cedar_pdp.Loader.{PolicyLoadError, Listing, Env, LoadedPolicies, checked, load_dir}
use nono_cedar_pdp.Loader.Laws.{IsChecked, IsLoad, load_dir-eq_ok, checked-eq_ok}
use nono_cedar_pdp.ContentDigest.{finish}
use nono_cedar_pdp.Engine.{Engine, bootstrap, from_policy_set, next_generation, adopt, reload}

module _ (c : Cedar) where
  open c use {Schema, PolicySet}

  -- What a reload does with the outcome of its load.
  pub data Adopts {E : Type 0} (env : Env) (listing : Listing E) (e : Engine c)
      (r : Engine c × Result (PolicyLoadError E) ℕ) : Type 0 where
    kept : (x : PolicyLoadError E) → r ≡ (e, err x) → Adopts env listing e r
    replaced :
        (l : LoadedPolicies c)
        → IsLoad c env e.schema listing (next_generation c e) l
        → r ≡ (record e { current = l }, ok (next_generation c e))
        → Adopts env listing e r

  adopt-Adopts :
      {E : Type 0} (env : Env) (listing : Listing E) (e : Engine c)
      (r : Result (PolicyLoadError E) (LoadedPolicies c))
      → load_dir c env e.policy_dir listing e.schema (next_generation c e) ≡ r
      → Adopts env listing e (adopt c e r)
  unfolding adopt
  adopt-Adopts env listing e (err x) h = kept x refl
  adopt-Adopts env listing e (ok l) h =
      replaced l (load_dir-eq_ok c env e.policy_dir listing e.schema (next_generation c e) h) refl

  -- A reload either fails and leaves the engine as it was, or puts the set of a whole, checked load
  -- in the place of the current one, under the next generation, and leaves the rest.
  pub reload-Adopts :
      {E : Type 0} (env : Env) (listing : Listing E) (e : Engine c)
      → Adopts env listing e (reload c env listing e)
  unfolding reload
  reload-Adopts env listing e =
      adopt-Adopts env listing e
        (load_dir c env e.policy_dir listing e.schema (next_generation c e)) refl

  -- The state an engine must never leave: a set that is not empty and passed validation.
  abbrev pub IsServing : Engine c → Type 0
  IsServing e = IsChecked c e.schema e.current

  -- An engine that the daemon can hold: built by a constructor, then reloaded any number of times,
  -- each time from any directory.
  pub data Reachable (E : Type 0) : Engine c → Type 0 where
    booted :
        (env : Env) (schema : Schema) (dir : Text) (listing : Listing E) {e : Engine c}
        → bootstrap c env schema dir listing ≡ ok e
        → Reachable E e
    built :
        (env : Env) (schema : Schema) (dir : Text) (set : PolicySet) (generation : ℕ) {e : Engine c}
        → from_policy_set c {E = E} env schema dir set generation ≡ ok e
        → Reachable E e
    reloaded :
        (env : Env) (listing : Listing E) {e e' : Engine c}
        → Reachable E e
        → e' ≡ (reload c env listing e).0
        → Reachable E e'

  pub bootstrap-IsServing :
      {E : Type 0} (env : Env) (schema : Schema) (dir : Text) (listing : Listing E) {e : Engine c}
      → bootstrap c env schema dir listing ≡ ok e
      → IsServing e
  unfolding bootstrap
  bootstrap-IsServing env schema dir listing {e} h =
      let (l, d, q) = bind-eq_ok (load_dir c env dir listing schema 1) _ h in
      let k = (load_dir-eq_ok c env dir listing schema 1 d).is_checked in
      subst IsServing (ok-injective q) k

  pub bootstrap-IsLoad :
      {E : Type 0} (env : Env) (schema : Schema) (dir : Text) (listing : Listing E) {e : Engine c}
      → bootstrap c env schema dir listing ≡ ok e
      → IsLoad c env e.schema listing 1 e.current
  unfolding bootstrap
  bootstrap-IsLoad env schema dir listing {e} h =
      let (l, d, q) = bind-eq_ok (load_dir c env dir listing schema 1) _ h in
      subst (λ x. IsLoad c env x.schema listing 1 x.current) (ok-injective q)
        (load_dir-eq_ok c env dir listing schema 1 d)

  pub bootstrap-policy_dir :
      {E : Type 0} (env : Env) (schema : Schema) (dir : Text) (listing : Listing E) {e : Engine c}
      → bootstrap c env schema dir listing ≡ ok e
      → e.policy_dir ≡ dir
  unfolding bootstrap
  bootstrap-policy_dir env schema dir listing {e} h =
      let (l, d, q) = bind-eq_ok (load_dir c env dir listing schema 1) _ h in
      ap (λ x. x.policy_dir) (sym (ok-injective q))

  from_policy_set-IsServing :
      {E : Type 0} (env : Env) (schema : Schema) (dir : Text) (set : PolicySet) (generation : ℕ)
      {e : Engine c}
      → from_policy_set c {E = E} env schema dir set generation ≡ ok e
      → IsServing e
  unfolding from_policy_set
  from_policy_set-IsServing {E} env schema dir set generation {e} h =
      let (l, d, q) =
        bind-eq_ok (checked c {E = E} env set schema dir generation [] (finish env.sha256 [])) _
          h in
      subst IsServing (ok-injective q)
        (checked-eq_ok c {E = E} env set schema dir generation [] (finish env.sha256 []) d).0

  pub reload-IsServing :
      {E : Type 0} (env : Env) (listing : Listing E) (e : Engine c)
      → IsServing e
      → IsServing (reload c env listing e).0
  reload-IsServing env listing e h = elim (reload-Adopts env listing e) [
    | kept x q ↦ subst IsServing (ap (λ r. r.0) (sym q)) h
    | replaced l k q ↦ subst IsServing (ap (λ r. r.0) (sym q)) k.is_checked
  ]

  -- No engine that the daemon can hold is without policies or holds an unvalidated set: not at
  -- startup, and not behind any sequence of reloads, failed ones included.
  pub Reachable-IsServing : {E : Type 0} {e : Engine c} → Reachable E e → IsServing e
  Reachable-IsServing (booted env schema dir listing h) =
      bootstrap-IsServing env schema dir listing h
  Reachable-IsServing (built env schema dir set generation h) =
      from_policy_set-IsServing env schema dir set generation h
  Reachable-IsServing (reloaded env listing {e} r q) =
      subst IsServing (sym q) (reload-IsServing env listing e (Reachable-IsServing r))
