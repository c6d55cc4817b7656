-- ===== src/Engine.antt =====
-- `Engine` of src/cedar/engine.rs: the current policy set, its replacement and the evaluation of a
-- query. `ArcSwap` is a field that `reload` replaces whole; log lines are left out.
pub mod Laws
pub mod Reload
use nono_cedar_pdp.Base.{
  ℕ, ◌+◌, ◌%◌, ◌^◌, Option, none, some, List, [], ◌∷◌, ◌++◌, Text, Bytes, lit, Result, ok, err,
  ◌>>=◌,
}
use nono_cedar_pdp.EndpointPath.{Ambiguity, ambiguity}
use nono_cedar_pdp.EndpointPath.Describe.{describe}
use nono_cedar_pdp.Query.{Target, command_target, endpoint_target, PolicyQuery}
use nono_cedar_pdp.Decision.{Decision, deny_with, from_response}
use nono_cedar_pdp.Cedar.{Cedar}
use nono_cedar_pdp.Entities.{BuildError, display, build}
use nono_cedar_pdp.ContentDigest.{finish}
use nono_cedar_pdp.Loader.{PolicyLoadError, Listing, Env, LoadedPolicies, checked, load_dir}

-- The guard of `evaluate`: why a target's path cannot be given to a policy.
unfoldable pub path_ambiguity : Target → Option Ambiguity
path_ambiguity (command_target t) = none
path_ambiguity (endpoint_target t) = ambiguity t.path

unfoldable pub target_path : Target → Text
target_path (command_target t) = []
target_path (endpoint_target t) = t.path

-- The deny of an ambiguous path; `debug` is the quoting of `{:?}`.
unfoldable pub ambiguous : (Text → Text) → Text → Ambiguity → Decision
ambiguous debug path a = deny_with (
    lit "ambiguous endpoint path "
    ++ (debug path
        ++ (lit ": "
            ++ (describe debug a ++ lit " — refusing to guess what the upstream resolves it to"))))

module _ (c : Cedar) where
  open c use {Schema, PolicySet, Request, Entities, is_authorized, num_of_policies}

  pub record Engine : Type 0 where
    pub schema : Schema
    pub policy_dir : Text
    pub current : LoadedPolicies c

  -- `Engine::bootstrap`
  unfoldable pub bootstrap :
      {E : Type 0} → Env → Schema → Text → Listing E → Result (PolicyLoadError E) Engine
  bootstrap env schema policy_dir listing = do
    initial ← load_dir c env policy_dir listing schema 1
    ok (record { schema = schema; policy_dir = policy_dir; current = initial })

  -- `Engine::from_policy_set`
  unfoldable pub from_policy_set :
      {E : Type 0} → Env → Schema → Text → PolicySet → ℕ → Result (PolicyLoadError E) Engine
  from_policy_set env schema policy_dir set generation = do
    loaded ← checked c env set schema policy_dir generation [] (finish env.sha256 [])
    ok (record { schema = schema; policy_dir = policy_dir; current = loaded })

  -- The end of `evaluate`, with a request or the reason why there is none.
  unfoldable pub decide : Result BuildError (Request × Entities) → PolicySet → ℕ → Decision
  decide (err e) set eval_us = deny_with (lit "could not build policy request: " ++ display e)
  decide (ok (request, entities)) set eval_us =
      from_response (is_authorized request set entities) eval_us

  -- `Engine::evaluate`; `eval_us` is what the clock says at the end.
  unfoldable pub evaluate : (Text → Text) → ℕ → Engine → PolicyQuery → Decision
  unfolding decide
  evaluate debug eval_us engine q = elim (path_ambiguity q.target) [
    | some a ↦ ambiguous debug (target_path q.target) a
    | none ↦ decide (build c q engine.schema) engine.current.set eval_us
  ]

  -- `u64` addition.
  unfoldable pub next_generation : Engine → ℕ
  next_generation engine = (engine.current.generation + 1) % 2 ^ 64

  unfoldable pub adopt :
      {E : Type 0}
      → Engine
      → Result (PolicyLoadError E) (LoadedPolicies c)
      → Engine × Result (PolicyLoadError E) ℕ
  adopt engine (err e) = (engine, err e)
  adopt engine (ok loaded) = (record engine { current = loaded }, ok (next_generation engine))

  -- `Engine::reload`: on an error the engine is as it was.
  unfoldable pub reload :
      {E : Type 0} → Env → Listing E → Engine → Engine × Result (PolicyLoadError E) ℕ
  unfolding adopt
  reload env listing engine =
      adopt engine (load_dir c env engine.policy_dir listing engine.schema (next_generation engine))
