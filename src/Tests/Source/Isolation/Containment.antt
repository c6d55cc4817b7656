-- ===== src/Tests/Source/Isolation/Containment.antt =====
-- The unit tests of src/isolation.rs on state inside the working directory.
use nono_cedar_pdp.Utf8.{from_utf8}
use nono_cedar_pdp.Loader.{skip_reason}
use nono_cedar_pdp.Loader.{is_cedar}
use nono_cedar_pdp.Loader.{extension}
use nono_cedar_pdp.Isolation.{visit}
use nono_cedar_pdp.Isolation.{check_entry}
use nono_cedar_pdp.Isolation.{check_entries}
use nono_cedar_pdp.Base.{◌≡◌, refl, Bool, true, false, some, [], ◌∷◌, Text, lit, text_eq}
use nono_cedar_pdp.FilePaths.{FilePath}
use nono_cedar_pdp.Isolation.{
  judge_component, refuse_untrusted_policy_dir, refuse_on_untrusted_ancestors, check, foreign_owner,
  facts_of, loose_writers, loose_ancestor_writers,
}
use nono_cedar_pdp.Tests.Source.Disk.{
  Disk, temp, elsewhere, system, below, policies, policy_dir, mounted, shown,
}
use nono_cedar_pdp.Tests.Source.Refusals.{refused, warns, euid}

abbrev log : FilePath
log = below temp (lit "decisions.jsonl" ∷ [])

abbrev fixture : Disk
fixture = policy_dir temp system

abbrev root : FilePath
root = record { is_absolute = true; names = [] }

abbrev an_owner_only_directory_outside_the_cwd_passes_without_warnings : Bool
an_owner_only_directory_outside_the_cwd_passes_without_warnings = warns [] (
    check (mounted euid fixture) (policies temp)
      (below temp (lit "decisions.jsonl" ∷ lit "state" ∷ [])) (some elsewhere))

abbrev a_policy_directory_inside_the_cwd_warns_and_names_the_risk : Bool
a_policy_directory_inside_the_cwd_warns_and_names_the_risk =
    warns ((shown (policies temp) ∷ lit "fs_write" ∷ lit "same user" ∷ lit "cannot read" ∷ []) ∷ [])
      (check (mounted euid fixture) (policies temp) (below elsewhere (lit "decisions.jsonl" ∷ []))
        (some temp))

-- A path begun with `./` is its names: the `.` is no component of the joined path.
abbrev a_relative_policy_directory_is_measured_against_the_cwd : Bool
a_relative_policy_directory_is_measured_against_the_cwd =
    let here : Text → FilePath = λ name. record { is_absolute = false; names = name ∷ [] } in
    warns ([] ∷ [] ∷ []) (
      check (mounted euid fixture) (here (lit "policies")) (here (lit "decisions.jsonl"))
        (some temp))

abbrev an_audit_log_inside_the_cwd_warns_about_the_trail : Bool
an_audit_log_inside_the_cwd_warns_about_the_trail =
    warns ((lit "decisions.jsonl" ∷ lit "audit" ∷ []) ∷ [])
      (check (mounted euid (policy_dir elsewhere system)) (policies elsewhere) log (some temp))

-- On a disk where the working directory is named through the link.
abbrev a_not_yet_created_audit_log_is_still_located : Bool
a_not_yet_created_audit_log_is_still_located =
    let cwd = below root (lit "t" ∷ lit "var" ∷ []) in
    warns ([] ∷ [] ∷ []) (
      check (mounted euid fixture) (policies temp)
        (below cwd (lit "decisions.jsonl" ∷ lit "state" ∷ [])) (some cwd))

an_owner_only_directory_outside_the_cwd_passes_without_warnings_passes :
    an_owner_only_directory_outside_the_cwd_passes_without_warnings ≡ true
unfolding check refuse_untrusted_policy_dir mounted refused warns shown text_eq lit check_entries
    check_entry visit extension is_cedar skip_reason from_utf8 judge_component foreign_owner
    facts_of loose_writers refuse_on_untrusted_ancestors loose_ancestor_writers
an_owner_only_directory_outside_the_cwd_passes_without_warnings_passes = refl

a_policy_directory_inside_the_cwd_warns_and_names_the_risk_passes :
    a_policy_directory_inside_the_cwd_warns_and_names_the_risk ≡ true
unfolding check refuse_untrusted_policy_dir mounted refused warns shown text_eq lit check_entries
    check_entry visit extension is_cedar skip_reason from_utf8 judge_component foreign_owner
    facts_of loose_writers refuse_on_untrusted_ancestors loose_ancestor_writers
a_policy_directory_inside_the_cwd_warns_and_names_the_risk_passes = refl

a_relative_policy_directory_is_measured_against_the_cwd_passes :
    a_relative_policy_directory_is_measured_against_the_cwd ≡ true
unfolding check refuse_untrusted_policy_dir mounted refused warns shown text_eq lit check_entries
    check_entry visit extension is_cedar skip_reason from_utf8 judge_component foreign_owner
    facts_of loose_writers refuse_on_untrusted_ancestors loose_ancestor_writers
a_relative_policy_directory_is_measured_against_the_cwd_passes = refl

an_audit_log_inside_the_cwd_warns_about_the_trail_passes :
    an_audit_log_inside_the_cwd_warns_about_the_trail ≡ true
unfolding check refuse_untrusted_policy_dir mounted refused warns shown text_eq lit check_entries
    check_entry visit extension is_cedar skip_reason from_utf8 judge_component foreign_owner
    facts_of loose_writers refuse_on_untrusted_ancestors loose_ancestor_writers
an_audit_log_inside_the_cwd_warns_about_the_trail_passes = refl

a_not_yet_created_audit_log_is_still_located_passes :
    a_not_yet_created_audit_log_is_still_located ≡ true
unfolding check refuse_untrusted_policy_dir mounted refused warns shown text_eq lit check_entries
    check_entry visit extension is_cedar skip_reason from_utf8 judge_component foreign_owner
    facts_of loose_writers refuse_on_untrusted_ancestors loose_ancestor_writers
a_not_yet_created_audit_log_is_still_located_passes = refl
