-- ===== src/Tests/Guarded.antt =====
-- The checks on modes and owners at a concrete file system.

use nono_cedar_pdp.Base.{
  ◌≡◌, refl, true, false, Option, none, some, List, [], ◌∷◌, All, lit, text_eq,
}
use nono_cedar_pdp.Utf8.{from_utf8}
use nono_cedar_pdp.Loader.{is_cedar, extension, skip_reason}
use nono_cedar_pdp.FilePaths.{
  FilePath, absolutize, resolve, resolve_existing_prefix, join_cwd, starts_with, ends_in,
}
use nono_cedar_pdp.Isolation.{
  facts_of, foreign_owner, loose_writers, loose_ancestor_writers, judge_component, visit,
  refuse_on_untrusted_ancestors, refuse_if_untrusted, check_entry, check_entries,
  refuse_untrusted_policy_dir, judge_audit_log, check, base_of, walk, inside, Warning,
  policy_dir_inside_cwd, audit_log_inside_cwd,
}
use nono_cedar_pdp.Tests.Toy.{home, home-IsResolver}
use nono_cedar_pdp.Isolation.Judgements.{SafeAncestor, ancestors}
use nono_cedar_pdp.Isolation.Startup.{check-resolved, absolutize-resolved}
use nono_cedar_pdp.Isolation.Laws.{IsTrusted, SafeLog}

abbrev policies : FilePath
policies = record { is_absolute = true; names = lit "policies" ∷ lit "home" ∷ [] }

abbrev key : FilePath
key = record { is_absolute = true; names = lit "key.pem" ∷ lit "home" ∷ [] }

abbrev relative : FilePath
relative = record { is_absolute = false; names = lit "log" ∷ [] }

abbrev log_file : FilePath
log_file = record { is_absolute = true; names = lit "log" ∷ lit "home" ∷ [] }

-- The daemon runs in the home directory: both paths are in it.
abbrev cwd : Option FilePath
cwd = some (record { is_absolute = true; names = lit "home" ∷ [] })

abbrev warnings : List Warning
warnings =
    policy_dir_inside_cwd policies (record { is_absolute = true; names = lit "home" ∷ [] })
    ∷ audit_log_inside_cwd log_file (record { is_absolute = true; names = lit "home" ∷ [] })
    ∷ []

absolutize-resolved_example :
    (let base = base_of home home.current_dir in
      let resolved = resolve_existing_prefix home relative in
      (absolutize home policies base ≡ policies)
      × (absolutize home (absolutize home policies base) none ≡ policies)
      × (absolutize home resolved base ≡ resolved)
      × (resolve_existing_prefix home (absolutize home resolved base) ≡ resolved))
absolutize-resolved_example =
    absolutize-resolved home home-IsResolver policies policies relative refl

check-resolved_example :
    (let resolved = resolve_existing_prefix home log_file in
      IsTrusted home policies
      × All (SafeAncestor home) (ancestors resolved)
      × SafeLog home resolved)
unfolding lit check refuse_untrusted_policy_dir refuse_if_untrusted judge_component foreign_owner
    facts_of loose_writers check_entries check_entry is_cedar extension text_eq skip_reason
    from_utf8 refuse_on_untrusted_ancestors visit loose_ancestor_writers judge_audit_log absolutize
    resolve join_cwd walk inside starts_with ends_in resolve_existing_prefix
check-resolved_example = check-resolved home home-IsResolver policies policies log_file [] refl refl
