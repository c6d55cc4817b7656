-- ===== src/Tests/Source/Isolation.antt =====
-- The unit tests of src/isolation.rs on the modes of the policy directory, of its files and of the
-- ancestors.
pub mod Containment
pub mod Owners
pub mod PrivateKey
use nono_cedar_pdp.Utf8.{from_utf8}
use nono_cedar_pdp.Loader.{skip_reason}
use nono_cedar_pdp.Loader.{is_cedar}
use nono_cedar_pdp.Loader.{extension}
use nono_cedar_pdp.Isolation.{visit}
use nono_cedar_pdp.Isolation.{check_entry}
use nono_cedar_pdp.Isolation.{check_entries}
use nono_cedar_pdp.Base.{
  ◌≡◌, refl, ℕ, Bool, true, false, ◌&&◌, none, some, List, [], ◌∷◌, Text, lit, Result, ok, err,
  text_eq,
}
use nono_cedar_pdp.FilePaths.{FilePath, Fs, absolutize, IoError, starts_with}
use nono_cedar_pdp.Isolation.{
  IsolationError, ComponentFacts, judge_component, refuse_if_untrusted, judge_ancestor,
  judge_audit_log, refuse_untrusted_policy_dir, refuse_on_untrusted_ancestors, Warning, check,
  foreign_owner, facts_of, loose_writers, loose_ancestor_writers, octal,
}
use nono_cedar_pdp.Tests.Source.{all, mentions}
use nono_cedar_pdp.Tests.Source.Disk.{
  Disk, temp, elsewhere, system, below, make, chmod, policies, baseline, policy_dir, mounted, shown,
  show_io,
}
use nono_cedar_pdp.Tests.Source.Refusals.{
  is_writable, is_ancestor, is_foreign, is_io, refused, is_ok, warns, euid,
}

abbrev log : FilePath
log = below temp (lit "decisions.jsonl" ∷ [])

-- The check of the fixture's policy directory on a disk.
abbrev checked : Disk → Result (IsolationError Text) (List Warning)
checked disk = check (mounted euid disk) (policies temp) log none

abbrev fixture : Disk
fixture = policy_dir temp system

abbrev a_group_writable_policy_directory_refuses_to_serve : Bool
a_group_writable_policy_directory_refuses_to_serve =
    refused is_writable (lit "group" ∷ lit "0770" ∷ shown (policies temp) ∷ lit "chmod go-w" ∷ [])
      (checked (chmod (policies temp) 0o770 fixture))

abbrev the_writability_remedy_warns_that_chmod_does_not_undo_content_changed_while_loose : Bool
the_writability_remedy_warns_that_chmod_does_not_undo_content_changed_while_loose =
    refused is_writable (lit "review" ∷ lit "does not undo" ∷ [])
      (checked (chmod (policies temp) 0o770 fixture))

abbrev a_world_writable_policy_directory_refuses_to_serve : Bool
a_world_writable_policy_directory_refuses_to_serve =
    refused is_writable (lit "world" ∷ []) (checked (chmod (policies temp) 0o707 fixture))

abbrev a_group_writable_policy_file_refuses_to_serve : Bool
a_group_writable_policy_file_refuses_to_serve =
    refused is_writable (lit "00-baseline.cedar" ∷ [])
      (checked (chmod (baseline temp) 0o660 fixture))

abbrev a_loose_file_the_loader_ignores_is_not_a_refusal : Bool
a_loose_file_the_loader_ignores_is_not_a_refusal =
    let loose : Text → Disk → Disk = λ name. make (below (policies temp) (name ∷ [])) 0o666 false in
    warns [] (
      checked (
        loose (lit ".00-baseline.cedar")
          (loose (lit "#00-baseline.cedar#") (loose (lit "notes.txt") fixture))))

-- The link has the facts of its target, which `metadata` follows it to.
abbrev a_policy_symlinked_to_a_world_writable_file_refuses_to_serve : Bool
a_policy_symlinked_to_a_world_writable_file_refuses_to_serve =
    refused is_writable []
      (checked (make (below (policies temp) (lit "99-linked.cedar" ∷ [])) 0o666 false fixture))

abbrev a_policy_directory_we_cannot_stat_refuses_to_serve : Bool
a_policy_directory_we_cannot_stat_refuses_to_serve =
    refused is_io (lit "nowhere" ∷ [])
      (check (mounted euid system) (below temp (lit "nowhere" ∷ [])) log none)

abbrev a_loose_non_sticky_ancestor_of_the_policy_dir_refuses_to_serve : Bool
a_loose_non_sticky_ancestor_of_the_policy_dir_refuses_to_serve =
    let parent = below temp (lit "shared" ∷ []) in
    refused is_ancestor
      (shown parent
        ∷ lit "0770"
        ∷ lit "group"
        ∷ lit "sticky"
        ∷ lit "chmod go-w"
        ∷ lit "same user"
        ∷ [])
      (check (mounted euid (policy_dir parent (make parent 0o770 true system))) (policies parent)
        log none)

abbrev a_sticky_world_writable_ancestor_is_not_a_refusal : Bool
a_sticky_world_writable_ancestor_is_not_a_refusal =
    let shared = below temp (lit "shared" ∷ []) in
    warns [] (
      check (mounted euid (policy_dir shared (make shared 0o1777 true system))) (policies shared)
        log none)

abbrev a_loose_non_sticky_ancestor_of_the_audit_log_refuses_to_serve : Bool
a_loose_non_sticky_ancestor_of_the_audit_log_refuses_to_serve =
    let logs = below temp (lit "logs" ∷ []) in
    refused is_ancestor (lit "audit log" ∷ shown logs ∷ lit "0707" ∷ lit "world" ∷ []) (
      check (mounted euid (make logs 0o707 true fixture)) (policies temp)
        (below logs (lit "decisions.jsonl" ∷ [])) none)

abbrev a_world_writable_non_directory_ancestor_is_not_the_walks_refusal : Bool
a_world_writable_non_directory_ancestor_is_not_the_walks_refusal =
    let blocker = below temp (lit "blocker.txt" ∷ []) in
    warns [] (
      check (mounted euid (make blocker 0o666 false fixture)) (policies temp)
        (below blocker (lit "decisions.jsonl" ∷ [])) none)

abbrev an_ancestor_that_cannot_be_stated_refuses_to_serve : Bool
an_ancestor_that_cannot_be_stated_refuses_to_serve =
    let locked = below temp (lit "locked" ∷ []) in
    refused is_io (lit "locked/sub" ∷ []) (
      check (mounted euid (make locked 0o600 true fixture)) (policies temp)
        (below locked (lit "decisions.jsonl" ∷ lit "sub" ∷ [])) none)

a_group_writable_policy_directory_refuses_to_serve_passes :
    a_group_writable_policy_directory_refuses_to_serve ≡ true
unfolding check refuse_untrusted_policy_dir mounted refused warns shown text_eq lit check_entries
    check_entry visit extension is_cedar skip_reason from_utf8 chmod judge_component foreign_owner
    facts_of loose_writers octal
a_group_writable_policy_directory_refuses_to_serve_passes = refl

the_writability_remedy_warns_that_chmod_does_not_undo_content_changed_while_loose_passes :
    the_writability_remedy_warns_that_chmod_does_not_undo_content_changed_while_loose ≡ true
unfolding check refuse_untrusted_policy_dir mounted refused warns shown text_eq lit check_entries
    check_entry visit extension is_cedar skip_reason from_utf8 chmod judge_component foreign_owner
    facts_of loose_writers octal
the_writability_remedy_warns_that_chmod_does_not_undo_content_changed_while_loose_passes = refl

a_world_writable_policy_directory_refuses_to_serve_passes :
    a_world_writable_policy_directory_refuses_to_serve ≡ true
unfolding check refuse_untrusted_policy_dir mounted refused warns shown text_eq lit check_entries
    check_entry visit extension is_cedar skip_reason from_utf8 chmod judge_component foreign_owner
    facts_of loose_writers
a_world_writable_policy_directory_refuses_to_serve_passes = refl

a_group_writable_policy_file_refuses_to_serve_passes :
    a_group_writable_policy_file_refuses_to_serve ≡ true
unfolding check refuse_untrusted_policy_dir mounted refused warns shown text_eq lit check_entries
    check_entry visit extension is_cedar skip_reason from_utf8 chmod judge_component foreign_owner
    facts_of loose_writers
a_group_writable_policy_file_refuses_to_serve_passes = refl

a_loose_file_the_loader_ignores_is_not_a_refusal_passes :
    a_loose_file_the_loader_ignores_is_not_a_refusal ≡ true
unfolding check refuse_untrusted_policy_dir mounted refused warns shown text_eq lit check_entries
    check_entry visit extension is_cedar skip_reason from_utf8 judge_component foreign_owner
    facts_of loose_writers refuse_on_untrusted_ancestors loose_ancestor_writers
a_loose_file_the_loader_ignores_is_not_a_refusal_passes = refl

a_policy_symlinked_to_a_world_writable_file_refuses_to_serve_passes :
    a_policy_symlinked_to_a_world_writable_file_refuses_to_serve ≡ true
unfolding check refuse_untrusted_policy_dir mounted refused warns shown text_eq lit check_entries
    check_entry visit extension is_cedar skip_reason from_utf8 judge_component foreign_owner
    facts_of loose_writers
a_policy_symlinked_to_a_world_writable_file_refuses_to_serve_passes = refl

a_policy_directory_we_cannot_stat_refuses_to_serve_passes :
    a_policy_directory_we_cannot_stat_refuses_to_serve ≡ true
unfolding check refuse_untrusted_policy_dir mounted refused warns shown text_eq lit check_entries
    check_entry visit extension is_cedar skip_reason from_utf8
a_policy_directory_we_cannot_stat_refuses_to_serve_passes = refl

a_loose_non_sticky_ancestor_of_the_policy_dir_refuses_to_serve_passes :
    a_loose_non_sticky_ancestor_of_the_policy_dir_refuses_to_serve ≡ true
unfolding check refuse_untrusted_policy_dir mounted refused warns shown text_eq lit check_entries
    check_entry visit extension is_cedar skip_reason from_utf8 judge_component foreign_owner
    facts_of loose_writers refuse_on_untrusted_ancestors loose_ancestor_writers octal
a_loose_non_sticky_ancestor_of_the_policy_dir_refuses_to_serve_passes = refl

a_sticky_world_writable_ancestor_is_not_a_refusal_passes :
    a_sticky_world_writable_ancestor_is_not_a_refusal ≡ true
unfolding check refuse_untrusted_policy_dir mounted refused warns shown text_eq lit check_entries
    check_entry visit extension is_cedar skip_reason from_utf8 judge_component foreign_owner
    facts_of loose_writers refuse_on_untrusted_ancestors loose_ancestor_writers
a_sticky_world_writable_ancestor_is_not_a_refusal_passes = refl

a_loose_non_sticky_ancestor_of_the_audit_log_refuses_to_serve_passes :
    a_loose_non_sticky_ancestor_of_the_audit_log_refuses_to_serve ≡ true
unfolding check refuse_untrusted_policy_dir mounted refused warns shown text_eq lit check_entries
    check_entry visit extension is_cedar skip_reason from_utf8 judge_component foreign_owner
    facts_of loose_writers refuse_on_untrusted_ancestors loose_ancestor_writers octal
a_loose_non_sticky_ancestor_of_the_audit_log_refuses_to_serve_passes = refl

a_world_writable_non_directory_ancestor_is_not_the_walks_refusal_passes :
    a_world_writable_non_directory_ancestor_is_not_the_walks_refusal ≡ true
unfolding check refuse_untrusted_policy_dir mounted refused warns shown text_eq lit check_entries
    check_entry visit extension is_cedar skip_reason from_utf8 judge_component foreign_owner
    facts_of loose_writers refuse_on_untrusted_ancestors loose_ancestor_writers
a_world_writable_non_directory_ancestor_is_not_the_walks_refusal_passes = refl

an_ancestor_that_cannot_be_stated_refuses_to_serve_passes :
    an_ancestor_that_cannot_be_stated_refuses_to_serve ≡ true
unfolding check refuse_untrusted_policy_dir mounted refused warns shown text_eq lit check_entries
    check_entry visit extension is_cedar skip_reason from_utf8 judge_component foreign_owner
    facts_of loose_writers refuse_on_untrusted_ancestors loose_ancestor_writers
an_ancestor_that_cannot_be_stated_refuses_to_serve_passes = refl
