-- ===== src/Daemon/Provenance.antt =====
-- The provenance that src/watcher.rs records of the policy sets that the engine of
-- src/cedar/engine.rs decides with.
use nono_cedar_pdp.Base.{
  ℕ, ◌≡◌, refl, ap, ◌⊎◌, inl, inr, Bool, some, List, [], ◌∷◌, ◌++◌, map, IsIn, IsIn-append_left,
  IsIn-last, Text, Bytes, lit, Result, ok, err,
}
use nono_cedar_pdp.Sanitize.{control_escape}
use nono_cedar_pdp.Audit.{
  Line, PolicySetRecord, policy_set_line, policy_set, PolicySetOutcome, loaded, name, outcome_hash,
  outcome_files,
}
use nono_cedar_pdp.Cedar.{Cedar}
use nono_cedar_pdp.Loader.{LoadedPolicies}
use nono_cedar_pdp.Engine.{Engine}
use nono_cedar_pdp.Engine.Reload.{kept, replaced, reload-Adopts}
use nono_cedar_pdp.Watcher.{Round}
use nono_cedar_pdp.Daemon.{Thread, idle, attempted, written, reloaded, attempt}

module _ (c : Cedar) where
  -- The trail has the line of this load: outcome, generation, hash and files.
  pub record Recorded (audit : List Line) (l : LoadedPolicies c) : Type 0 where
    pub line : PolicySetRecord
    pub is_in : IsIn (policy_set_line line) audit
    pub outcome : line.outcome ≡ lit "loaded"
    pub generation : line.generation ≡ l.generation
    pub content_hash : line.content_hash ≡ some l.content_hash
    pub display : Bytes → Text
    pub files : line.files ≡ some (map control_escape (map display l.files))

  pub Recorded-grows :
      (audit : List Line) (x : Line) {l : LoadedPolicies c}
      → Recorded audit l
      → Recorded (audit ++ x ∷ []) l
  Recorded-grows audit x h = record {
    line = h.line;
    is_in = IsIn-append_left audit (x ∷ []) h.is_in;
    outcome = h.outcome;
    generation = h.generation;
    content_hash = h.content_hash;
    display = h.display;
    files = h.files;
  }

  -- The line of a load is its record, wherever it stands.
  pub loaded-Recorded :
      (audit : List Line) (ts : Text) (generation : ℕ) (at_risk : Bool) (outcome : PolicySetOutcome)
      (display : Bytes → Text) (l : LoadedPolicies c)
      → generation ≡ l.generation
      → outcome ≡ loaded l.content_hash (map display l.files)
      → IsIn (policy_set_line (policy_set ts generation at_risk outcome)) audit
      → Recorded audit l
  unfolding policy_set name outcome_hash outcome_files lit
  loaded-Recorded audit ts generation at_risk outcome display l g o i = record {
    line = policy_set ts generation at_risk outcome;
    is_in = i;
    outcome = ap name o;
    generation = g;
    content_hash = ap outcome_hash o;
    display = display;
    files = ap outcome_files o;
  }

  module _ (E : Type 0) where
    -- The watch thread has adopted this set, and the line is the next thing that it writes.
    pub data Pending (t : Thread c E) (l : LoadedPolicies c) : Type 0 where
      pending :
          (now : Text × Text) (display : Bytes → Text)
          → t ≡ attempted now l.generation (loaded l.content_hash (map display l.files))
          → Pending t l

    -- The set has a line in the trail, or is about to have it.
    abbrev pub Named : List Line → Thread c E → LoadedPolicies c → Type 0
    Named audit t l = Recorded audit l ⊎ Pending t l

    pub Named-grows :
        (audit : List Line) (x : Line) (t : Thread c E) {l : LoadedPolicies c}
        → Named audit t l
        → Named (audit ++ x ∷ []) t l
    Named-grows audit x t (inl h) = inl (Recorded-grows audit x h)
    Named-grows audit x t (inr h) = inr h

    -- Nothing is pending while the thread waits, nor behind the line.
    pub Named-idle :
        (audit : List Line) (t t' : Thread c E) {l : LoadedPolicies c}
        → t ≡ idle
        → Named audit t l
        → Named audit t' l
    Named-idle audit t t' q (inl h) = inl h
    Named-idle audit t t' q (inr (pending now display p)) = absurd (cc)

    pub Named-written :
        (audit : List Line) (t t' : Thread c E) (at : Text) (outcome : PolicySetOutcome)
        {l : LoadedPolicies c}
        → t ≡ written at outcome
        → Named audit t l
        → Named audit t' l
    Named-written audit t t' at outcome q (inl h) = inl h
    Named-written audit t t' at outcome q (inr (pending now display p)) = absurd (cc)

    -- The line that the thread writes is the one that was pending.
    pub Named-write :
        (audit : List Line) (t t' : Thread c E) (now : Text × Text) (generation : ℕ)
        (at_risk : Bool) (outcome : PolicySetOutcome) {l : LoadedPolicies c}
        → t ≡ attempted now generation outcome
        → Named audit t l
        → Named (audit ++ policy_set_line (policy_set now.0 generation at_risk outcome) ∷ []) t' l
    Named-write audit t t' now generation at_risk outcome q (inl h) = inl (Recorded-grows audit _ h)
    Named-write audit t t' now generation at_risk outcome {l} q (inr (pending now' display p)) =
        let this = policy_set_line (policy_set now.0 generation at_risk outcome) in
        let g : generation ≡ l.generation = cc in
        let o : outcome ≡ loaded l.content_hash (map display l.files) = cc in
        inl (
          loaded-Recorded (audit ++ this ∷ []) now.0 generation at_risk outcome display l g o
            (IsIn-last this audit))

    -- An attempt leaves the set in place, or puts in one whose line is pending.
    pub attempt-Named :
        (audit : List Line) (r : Round c E) (e : Engine c) (trust : Result Text (Unit {0}))
        → Recorded audit e.current
        → (let x = attempt c E r e trust in Named audit (attempted r.now x.1 x.2) x.0.current)
    unfolding attempt reloaded
    attempt-Named audit r e (err x) h = inl h
    attempt-Named audit r e (ok u) h = elim (reload-Adopts c r.env r.listing e) [
      | kept x q ↦ rw q (inl h)
      | replaced l k q ↦ rw q (inr (pending r.now r.display refl))
    ]
