-- ===== src/Tests/Watching.antt =====
-- The watch thread at a concrete burst and round.
use nono_cedar_pdp.Base.{ℕ, ◌+◌, ◌≤◌, List, IsIn, length, refl, ◌≡◌, false, [], ◌∷◌, arith, lit}
use nono_cedar_pdp.ContentDigest.{finish}
use nono_cedar_pdp.Watcher.{debounce_ceiling, Arrival, drain, elapse, rounds, Watch, on_burst}
use nono_cedar_pdp.Watcher.Timely.{first as first_arrival, later, rounds_timely}
use nono_cedar_pdp.Watcher.Agreement.{Agrees, on_burst-Agrees, Adopted, on_burst-Adopted}
use nono_cedar_pdp.Tests.Toy.{toy, env, loaded, watch, round}

-- Two events, of which the second is late.
abbrev soon : List Arrival
soon = record { wait = 40; failed = false } ∷ record { wait = 500; failed = false } ∷ []

rounds_timely_example :
    (at : ℕ) × IsIn at (rounds (length soon) (λ t. 30) 1000 soon)
    × (1540 ≤ at)
    × (at ≤ 1540 + debounce_ceiling + 30)
rounds_timely_example =
    rounds_timely (λ t. 30) 30 (λ t. omega arith) 1000 soon (later (first_arrival refl refl))

-- Each event begins a burst of its own.
two_rounds : rounds (length soon) (λ t. 30) 1000 soon ≡ 1190 ∷ 1690 ∷ []
unfolding rounds drain elapse
two_rounds = refl

on_burst-Agrees_example : Agrees toy watch (on_burst toy round watch)
on_burst-Agrees_example = on_burst-Agrees toy round watch

on_burst-Adopted_example : Adopted toy round watch (on_burst toy round watch).engine
on_burst-Adopted_example = on_burst-Adopted toy round watch

abbrev first : Watch toy
first = record watch {
  engine = record {
    schema = tt;
    policy_dir = lit "/p";
    current = record {
      set = loaded.set;
      generation = 1;
      loaded_at = 7;
      files = [];
      content_hash = finish env.sha256 [];
    };
  };
}
