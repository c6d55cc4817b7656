-- ===== src/Watcher.antt =====
-- src/watcher.rs: the debounce, the trust re-check, the reload and its record. Times are in
-- milliseconds. The file system, at the trust check and at the load, is a parameter of a round.
pub mod Debounce
pub mod Agreement
pub mod Timely
use nono_cedar_pdp.Base.{
  ℕ, zero, suc, ◌+◌, ◌-◌, Bool, true, false, Option, none, some, List, [], ◌∷◌, ◌++◌, map, ltb, leb,
  if◌then◌else◌, Text, Bytes, Result, ok, err, map_err,
}
use Prim.Native.Nat.{min}
use nono_cedar_pdp.Audit.{
  Line, policy_set_line, PolicySetOutcome, loaded, refused, failed, name, policy_set,
}
use nono_cedar_pdp.Cedar.{Cedar}
use nono_cedar_pdp.Loader.{PolicyLoadError, Listing, Env, LoadedPolicies}
use nono_cedar_pdp.FilePaths.{FilePath, Fs}
use nono_cedar_pdp.Isolation.{IsolationError, refuse_untrusted_policy_dir}
use nono_cedar_pdp.Engine.{Engine, reload}
use nono_cedar_pdp.Server.{LastReload}

-- `DEBOUNCE` and `DEBOUNCE_CEILING`
abbrev pub debounce : ℕ
debounce = 150

abbrev pub debounce_ceiling : ℕ
debounce_ceiling = 2000

-- What comes through the channel: the time since what came before it, and whether it is an error of
-- the watch.
pub record Arrival : Type 0 where
  pub wait : ℕ
  pub failed : Bool

-- How a drain ended: the time since the burst's first event, whether the ceiling cut it short, and
-- what is still to come, of which the first is measured from that end.
pub record Drained : Type 0 where
  pub elapsed : ℕ
  pub cut_short : Bool
  pub pending : List Arrival

-- The loop that drains a burst, of errors of the watch as of events. The first arrival is measured
-- from now; when they run out, the channel stays silent.
unfoldable pub drain : ℕ → List Arrival → Drained
drain elapsed [] =
    if leb debounce_ceiling elapsed
    then record { elapsed = elapsed; cut_short = true; pending = [] }
    else let wait = min debounce (debounce_ceiling - elapsed) in
      record { elapsed = elapsed + wait; cut_short = ltb wait debounce; pending = [] }
drain elapsed (a ∷ arrivals) =
    let wait = min debounce (debounce_ceiling - elapsed) in
    let more = drain (elapsed + a.wait) arrivals in
    if leb debounce_ceiling elapsed
    then record { elapsed = elapsed; cut_short = true; pending = a ∷ arrivals }
    else if ltb a.wait wait
    then more
    else record {
      elapsed = elapsed + wait;
      cut_short = ltb wait debounce;
      pending = record a { wait = a.wait - wait } ∷ arrivals;
    }

-- The channel while the thread is at work: what arrives meanwhile is there when it comes back.
unfoldable pub elapse : ℕ → List Arrival → List Arrival
elapse w [] = []
elapse w (a ∷ arrivals) =
    if leb w a.wait
    then record a { wait = a.wait - w } ∷ arrivals
    else record a { wait = 0 } ∷ elapse (w - a.wait) arrivals

-- The loop of the watch thread from the time `now`: the times at which it turns to the directory.
-- An error of the watch begins no burst. `work t` is what a round that begins at `t` takes. Each
-- pass takes one arrival at least, so that their number is fuel enough.
unfoldable pub rounds : ℕ → (ℕ → ℕ) → ℕ → List Arrival → List ℕ
rounds zero work now arrivals = []
rounds (suc f) work now [] = []
rounds (suc f) work now (a ∷ arrivals) =
    let start = now + a.wait in
    let drained = drain 0 arrivals in
    let at = start + drained.elapsed in
    let failing = rounds f work start arrivals in
    let burst = at ∷ rounds f work (at + work at) (elapse (work at) drained.pending) in
    if a.failed then failing else burst

module _ (c : Cedar) where
  -- What the watch thread works on: the engine, and both surfaces that `Provenance` holds.
  pub record Watch : Type 0 where
    pub engine : Engine c
    pub at_risk : Bool
    pub audit : List Line
    pub last_reload : Option LastReload

  -- `Provenance::record`; `now` is the clock at its two readings.
  unfoldable pub record_outcome : Text × Text → ℕ → PolicySetOutcome → Watch → Watch
  record_outcome now generation outcome w = record w {
    audit = w.audit ++ policy_set_line (policy_set now.0 generation w.at_risk outcome) ∷ [];
    last_reload = some (record { outcome = name outcome; at = now.1 });
  }

  -- `Provenance::record_loaded`; `display` shows the path of a file.
  unfoldable pub record_loaded : (Bytes → Text) → Text × Text → LoadedPolicies c → Watch → Watch
  record_loaded display now l =
      record_outcome now l.generation (loaded l.content_hash (map display l.files))

  -- `Provenance::record_bootstrap`: the trail only.
  unfoldable pub record_bootstrap : (Bytes → Text) → Text → LoadedPolicies c → Watch → Watch
  record_bootstrap display now l w = record w {
    audit =
        w.audit
        ++ policy_set_line
            (policy_set now l.generation w.at_risk (loaded l.content_hash (map display l.files)))
          ∷ [];
  }

  -- What one round of the watch thread meets: the file system of the trust check, and the directory
  -- as the load reads it; `explain` and `show` are the `Display` of the two kinds of errors.
  pub record Round (E : Type 0) : Type 0 where
    pub fs : Fs E
    pub path_of : Text → FilePath
    pub explain : IsolationError E → Text
    pub env : Env
    pub listing : Listing E
    pub show : PolicyLoadError E → Text
    pub display : Bytes → Text
    pub now : Text × Text

  -- The `match engine.reload()`: the engine it leaves, and its result.
  unfoldable pub record_reload :
      {E : Type 0} → Round E → Engine c × Result (PolicyLoadError E) ℕ → Watch → Watch
  record_reload r (engine, ok generation) w =
      record_loaded r.display r.now engine.current (record w { engine = engine })
  record_reload r (engine, err e) w =
      record_outcome r.now engine.current.generation (failed (r.show e))
        (record w { engine = engine })

  unfoldable pub on_trust : {E : Type 0} → Round E → Result Text (Unit {0}) → Watch → Watch
  unfolding record_reload
  on_trust r (err e) w = record_outcome r.now w.engine.current.generation (refused e) w
  on_trust r (ok u) w = record_reload r (reload c r.env r.listing w.engine) w

  -- The trust check on the engine's directory.
  unfoldable pub trust_of : {E : Type 0} → Round E → Watch → Result Text (Unit {0})
  trust_of r w =
      map_err r.explain (refuse_untrusted_policy_dir r.fs (r.path_of w.engine.policy_dir))

  -- What the watch thread does behind the drain of one burst.
  unfoldable pub on_burst : {E : Type 0} → Round E → Watch → Watch
  unfolding on_trust trust_of
  on_burst r w = on_trust r (trust_of r w) w

  -- The thread's life: one round for each burst, and nothing for an error of the watch.
  unfoldable pub run : {E : Type 0} → List (Option (Round E)) → Watch → Watch
  unfolding on_burst
  run [] w = w
  run (none ∷ rs) w = run rs w
  run (some r ∷ rs) w = run rs (on_burst r w)
