-- ===== src/Tests/Decisions.antt =====
-- Loading, evaluating and deciding at a concrete directory and query.
use nono_cedar_pdp.Base.{
  ok, map, Text, ◌≡◌, refl, ◌↔◌, true, none, List, [], ◌∷◌, arith, Bytes, lit, text_eq,
}
use mathlib.Core.List.{Perm, Permᴰ}
use nono_cedar_pdp.Utf8.{from_utf8}
use nono_cedar_pdp.Decision.{permit, Response, from_response}
use nono_cedar_pdp.Decision.Laws.{IsSorted, from_response-matched}
use nono_cedar_pdp.ContentDigest.{finish, fed_from-injective}
use nono_cedar_pdp.Loader.{
  DirEntry, LoadedPolicies, add_all, load_file, load_files, checked, load_entries, load_dir, select,
  is_cedar, extension, skip_reason, sort_entries,
}
use nono_cedar_pdp.Loader.Order.{load_dir-perm}
use nono_cedar_pdp.Loader.Laws.{IsLoad, load_dir-eq_ok}
use nono_cedar_pdp.Engine.{Engine, path_ambiguity, evaluate}
use nono_cedar_pdp.Engine.Laws.{IsPermitted, evaluate-allow_iff}
use nono_cedar_pdp.Tests.Toy.{toy, env, listing, loaded, serving, get_query}

-- A directory in which every name is a policy file.
abbrev held : Bytes → DirEntry Text
held n = record { name = n; is_file = true; contents = ok (lit "x") }

abbrev listed : List Bytes
listed = lit "b.cedar" ∷ lit "a.cedar" ∷ []

abbrev listed_otherwise : List Bytes
listed_otherwise = lit "a.cedar" ∷ lit "b.cedar" ∷ []

load_dir-perm_example :
    load_dir toy env (lit "/p") (ok (map ok (map held listed))) tt 1
    ≡ load_dir toy env (lit "/p") (ok (map ok (map held listed_otherwise))) tt 1
load_dir-perm_example =
    load_dir-perm held (λ n. refl) toy env (lit "/p") tt 1 (Permᴰ.swap {l = []} refl refl)

abbrev response : Response
response = record { decision = permit; reasons = lit "b" ∷ lit "a" ∷ []; errors = lit "oops" ∷ [] }

from_response-matched_example :
    IsSorted (from_response response 3).matched
    × Perm (from_response response 3).matched response.reasons
from_response-matched_example = from_response-matched response 3

evaluate-allow_iff_example :
    ((evaluate toy (λ t. t) 5 serving (get_query (lit "/v1"))).allow ≡ true) ↔ (
      (path_ambiguity (get_query (lit "/v1")).target ≡ none)
      × IsPermitted toy serving (get_query (lit "/v1")))
evaluate-allow_iff_example = evaluate-allow_iff toy (λ t. t) 5 serving (get_query (lit "/v1"))

abbrev one_file : List (Bytes × Bytes)
one_file = (lit "a.cedar", lit "x") ∷ []

fed_from-injective_example : one_file ≡ one_file
unfolding lit
fed_from-injective_example =
    fed_from-injective one_file one_file ((omega arith, omega arith), tt)
      ((omega arith, omega arith), tt) refl

load_dir-eq_ok_example : (l : LoadedPolicies toy) × IsLoad toy env tt listing 1 l
unfolding lit load_dir load_entries select is_cedar extension text_eq skip_reason from_utf8
    load_files sort_entries load_file add_all checked
load_dir-eq_ok_example = (_, load_dir-eq_ok toy env (lit "/p") listing tt 1 refl)

abbrev first : Engine toy
first = record {
  schema = tt;
  policy_dir = lit "/p";
  current = record {
    set = loaded.set;
    generation = 1;
    loaded_at = 7;
    files = [];
    content_hash = finish env.sha256 [];
  };
}
