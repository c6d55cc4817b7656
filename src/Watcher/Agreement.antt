-- ===== src/Watcher/Agreement.antt =====
-- What the watch thread of src/watcher.rs adopts, and that its two records agree.
use nono_cedar_pdp.Base.{
  ℕ, ◌≡◌, refl, ap, ◌∙◌, Option, none, some, List, [], ◌∷◌, ◌++◌, Text, Result, ok, err,
  map_err-eq_ok,
}
use nono_cedar_pdp.Audit.{policy_set_line, PolicySetRecord, PolicySetOutcome, name, policy_set}
use nono_cedar_pdp.Cedar.{Cedar}
use nono_cedar_pdp.Loader.{PolicyLoadError, LoadedPolicies}
use nono_cedar_pdp.Loader.Laws.{IsLoad}
use nono_cedar_pdp.FilePaths.{FilePath, absolutize}
use nono_cedar_pdp.Isolation.{refuse_untrusted_policy_dir}
use nono_cedar_pdp.Isolation.Laws.{IsTrusted, refuse_untrusted_policy_dir-eq_ok}
use nono_cedar_pdp.Engine.{Engine, next_generation, reload}
use nono_cedar_pdp.Engine.Reload.{
  kept, replaced, reload-Adopts, Reachable, reloaded, IsServing, Reachable-IsServing,
}
use nono_cedar_pdp.Server.{LastReload}
use nono_cedar_pdp.Watcher.{
  Watch, Round, record_outcome, record_loaded, record_reload, on_trust, trust_of, on_burst, run,
}

module _ (c : Cedar) where
  -- Of a round from `w` to `w'`: it wrote one line, whose outcome the health surface tells, and whose
  -- generation is that of the engine it leaves.
  pub record Agrees (w w' : Watch c) : Type 0 where
    pub line : PolicySetRecord
    pub last : LastReload
    pub trail : w'.audit ≡ w.audit ++ policy_set_line line ∷ []
    pub surface : w'.last_reload ≡ some last
    pub outcome : line.outcome ≡ last.outcome
    pub generation : line.generation ≡ w'.engine.current.generation
    pub at_risk : line.at_risk ≡ w.at_risk

  record_outcome-Agrees :
      (now : Text × Text) (generation : ℕ) (outcome : PolicySetOutcome) (w : Watch c) (e : Engine c)
      → generation ≡ e.current.generation
      → Agrees w (record_outcome c now generation outcome (record w { engine = e }))
  unfolding record_outcome policy_set
  record_outcome-Agrees now generation outcome w e g = record {
    line = policy_set now.0 generation w.at_risk outcome;
    last = record { outcome = name outcome; at = now.1 };
    trail = refl;
    surface = refl;
    outcome = refl;
    generation = g;
    at_risk = refl;
  }

  record_reload-Agrees :
      {E : Type 0} (r : Round c E) (x : Engine c × Result (PolicyLoadError E) ℕ) (w : Watch c)
      → Agrees w (record_reload c r x w)
  unfolding record_loaded record_reload
  record_reload-Agrees r (e, ok n) w = record_outcome-Agrees r.now e.current.generation _ w e refl
  record_reload-Agrees r (e, err x) w = record_outcome-Agrees r.now e.current.generation _ w e refl

  on_trust-Agrees :
      {E : Type 0} (r : Round c E) (trust : Result Text (Unit {0})) (w : Watch c)
      → Agrees w (on_trust c r trust w)
  unfolding on_trust
  on_trust-Agrees r (err x) w =
      record_outcome-Agrees r.now w.engine.current.generation _ w w.engine refl
  on_trust-Agrees r (ok u) w = record_reload-Agrees r _ w

  -- Whatever a round does, refusals and failed loads included, it appends exactly one policy-set line
  -- to the trail and sets the last reload of the health surface, both of the same outcome, and the
  -- line carries the generation that is being served behind the round.
  pub on_burst-Agrees : {E : Type 0} (r : Round c E) (w : Watch c) → Agrees w (on_burst c r w)
  unfolding on_burst
  on_burst-Agrees r w = on_trust-Agrees r (trust_of c r w) w

  -- The directory that a round checks: the engine's, resolved.
  abbrev pub watched : {E : Type 0} → Round c E → Watch c → FilePath
  watched r w = absolutize r.fs (r.path_of w.engine.policy_dir) none

  -- What a round does to the engine.
  pub data Adopted {E : Type 0} (r : Round c E) (w : Watch c) (e : Engine c) : Type 0 where
    untrusted : (x : Text) → trust_of c r w ≡ err x → e ≡ w.engine → Adopted r w e
    unloaded :
        IsTrusted r.fs (watched r w)
        → (x : PolicyLoadError E) → (reload c r.env r.listing w.engine).1 ≡ err x
        → e ≡ w.engine
        → Adopted r w e
    adopted :
        IsTrusted r.fs (watched r w)
        → (l : LoadedPolicies c)
        → IsLoad c r.env w.engine.schema r.listing (next_generation c w.engine) l
        → e ≡ record w.engine { current = l }
        → Adopted r w e

  record_reload-engine :
      {E : Type 0} (r : Round c E) (x : Engine c × Result (PolicyLoadError E) ℕ) (w : Watch c)
      → (record_reload c r x w).engine ≡ x.0
  unfolding record_loaded record_reload record_outcome
  record_reload-engine r (e, ok n) w = refl
  record_reload-engine r (e, err x) w = refl

  trust_of-eq_ok :
      {E : Type 0} (r : Round c E) (w : Watch c) {u : Unit {0}}
      → trust_of c r w ≡ ok u
      → IsTrusted r.fs (watched r w)
  unfolding trust_of
  trust_of-eq_ok r w {u} h =
      let dir = r.path_of w.engine.policy_dir in
      refuse_untrusted_policy_dir-eq_ok r.fs dir u
        (map_err-eq_ok r.explain (refuse_untrusted_policy_dir r.fs dir) h)

  on_trust-Adopted :
      {E : Type 0} (r : Round c E) (trust : Result Text (Unit {0})) (w : Watch c)
      → trust_of c r w ≡ trust
      → Adopted r w (on_trust c r trust w).engine
  unfolding on_trust record_outcome
  on_trust-Adopted r (err x) w h = untrusted x h refl
  on_trust-Adopted r (ok u) w h =
      let k' = trust_of-eq_ok r w h in
      let q = record_reload-engine r (reload c r.env r.listing w.engine) w in
      elim (reload-Adopts c r.env r.listing w.engine) [
        | kept x e ↦ unloaded k' x (ap (λ p. p.1) e) (q ∙ ap (λ p. p.0) e)
        | replaced l k e ↦ adopted k' l k (q ∙ ap (λ p. p.0) e)
      ]

  -- A round changes the engine only when the policy directory is trusted, with all the files that
  -- the loader takes and all that is above it, and then only for a set that was read whole and
  -- validated; on an untrusted directory or a failed load the engine is kept.
  pub on_burst-Adopted :
      {E : Type 0} (r : Round c E) (w : Watch c) → Adopted r w (on_burst c r w).engine
  unfolding on_burst
  on_burst-Adopted r w = on_trust-Adopted r (trust_of c r w) w refl

  on_trust-Reachable :
      {E : Type 0} (r : Round c E) (trust : Result Text (Unit {0})) (w : Watch c)
      → Reachable c E w.engine
      → Reachable c E (on_trust c r trust w).engine
  unfolding on_trust record_outcome
  on_trust-Reachable r (err x) w h = h
  on_trust-Reachable r (ok u) w h =
      reloaded r.env r.listing h (record_reload-engine r (reload c r.env r.listing w.engine) w)

  on_burst-Reachable :
      {E : Type 0} (r : Round c E) (w : Watch c)
      → Reachable c E w.engine
      → Reachable c E (on_burst c r w).engine
  unfolding on_burst
  on_burst-Reachable r w h = on_trust-Reachable r (trust_of c r w) w h

  run-Reachable :
      {E : Type 0} (rounds : List (Option (Round c E))) (w : Watch c)
      → Reachable c E w.engine
      → Reachable c E (run c rounds w).engine
  unfolding run
  run-Reachable [] w h = h
  run-Reachable (none ∷ rounds) w h = run-Reachable rounds w h
  run-Reachable (some r ∷ rounds) w h =
      run-Reachable rounds (on_burst c r w) (on_burst-Reachable r w h)

  -- However long the watch thread runs, and whatever it meets, the engine it leaves serves a policy
  -- set that is not empty and passed validation, if the one it began with was built by the daemon.
  pub run-IsServing :
      {E : Type 0} (rounds : List (Option (Round c E))) (w : Watch c)
      → Reachable c E w.engine
      → IsServing c (run c rounds w).engine
  run-IsServing rounds w h = Reachable-IsServing c (run-Reachable rounds w h)
