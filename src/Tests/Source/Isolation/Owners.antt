-- ===== src/Tests/Source/Isolation/Owners.antt =====
-- The unit tests of src/isolation.rs on who owns a path.
use nono_cedar_pdp.Isolation.{visit}
use nono_cedar_pdp.Base.{◌≡◌, refl, ℕ, Bool, true, false, ◌&&◌, none, [], ◌∷◌, Text, lit, text_eq}
use nono_cedar_pdp.FilePaths.{FilePath, absolutize}
use nono_cedar_pdp.Isolation.{
  ComponentFacts, judge_component, refuse_if_untrusted, judge_ancestor, judge_audit_log,
  refuse_untrusted_policy_dir, refuse_on_untrusted_ancestors, check, foreign_owner, facts_of,
  loose_writers, loose_ancestor_writers,
}
use nono_cedar_pdp.Tests.Source.Disk.{
  Disk, temp, system, below, make, policies, policy_dir, mounted, shown,
}
use nono_cedar_pdp.Tests.Source.Refusals.{is_writable, is_foreign, refused, is_ok, warns, euid}

abbrev foreign_uid : ℕ
foreign_uid = 501

abbrev log : FilePath
log = below temp (lit "decisions.jsonl" ∷ [])

abbrev fixture : Disk
fixture = policy_dir temp system

abbrev facts : ℕ → ℕ → Bool → ComponentFacts
facts owner_uid mode is_dir = record { owner_uid = owner_uid; mode = mode; is_dir = is_dir }

abbrev root : FilePath
root = record { is_absolute = true; names = [] }

abbrev above_policies : Text
above_policies = lit "ancestor of the policy directory"

abbrev above_log : Text
above_log = lit "ancestor of the audit log"

abbrev a_foreign_owned_component_refuses_no_matter_how_tight_the_mode : Bool
a_foreign_owned_component_refuses_no_matter_how_tight_the_mode =
    let dir = below root (lit "policies" ∷ lit "x" ∷ []) in
    refused is_foreign
      (lit "/x/policies" ∷ lit "501" ∷ lit "root" ∷ lit "mode" ∷ lit "same user" ∷ [])
      (judge_component (lit "policy directory") dir (facts foreign_uid 0o700 true) euid)
    && refused is_foreign [] (
        judge_component (lit "policy file") (below dir (lit "p.cedar" ∷ []))
          (facts foreign_uid 0o600 false) euid)

abbrev root_owned_components_and_ancestors_pass : Bool
root_owned_components_and_ancestors_pass =
    let dir = below root (lit "policies" ∷ lit "pdp" ∷ lit "etc" ∷ []) in
    is_ok ((judge_component (lit "policy directory") dir (facts 0 0o755 true) euid))
    && (is_ok (
          (judge_ancestor (lit "policy directory") above_policies dir root (facts 0 0o755 true)
            euid))
        && is_ok (
            (judge_ancestor (lit "audit log") above_log
              (below root (lit "decisions.jsonl" ∷ lit "pdp" ∷ lit "tmp" ∷ []))
              (below root (lit "tmp" ∷ [])) (facts 0 0o1777 true) euid)))

abbrev a_foreign_owned_sticky_ancestor_still_refuses : Bool
a_foreign_owned_sticky_ancestor_still_refuses =
    refused is_foreign (above_policies ∷ lit "/x" ∷ []) (
      judge_ancestor (lit "policy directory") above_policies
        (below root (lit "policies" ∷ lit "x" ∷ [])) (below root (lit "x" ∷ []))
        (facts foreign_uid 0o1777 true) euid)

abbrev a_non_directory_ancestor_is_skipped_whoever_owns_it : Bool
a_non_directory_ancestor_is_skipped_whoever_owns_it = is_ok (
    (judge_ancestor (lit "audit log") above_log
      (below root (lit "decisions.jsonl" ∷ lit "null" ∷ lit "dev" ∷ []))
      (below root (lit "null" ∷ lit "dev" ∷ [])) (facts foreign_uid 0o666 false) euid))

abbrev a_self_owned_component_is_still_judged_by_its_mode : Bool
a_self_owned_component_is_still_judged_by_its_mode = refused is_writable [] (
    judge_component (lit "policy directory") (below root (lit "policies" ∷ lit "x" ∷ []))
      (facts euid 0o770 true) euid)

abbrev a_policy_directory_owned_by_another_uid_refuses_to_serve : Bool
a_policy_directory_owned_by_another_uid_refuses_to_serve =
    refused is_foreign (shown (policies temp) ∷ lit "500" ∷ [])
      (refuse_untrusted_policy_dir (mounted foreign_uid fixture) (policies temp))

abbrev an_ancestor_owned_by_another_uid_refuses_to_serve : Bool
an_ancestor_owned_by_another_uid_refuses_to_serve =
    let holder = below temp (lit "holder" ∷ []) in
    let fs = mounted foreign_uid (policy_dir holder (make holder 0o755 true system)) in
    refused is_foreign (shown holder ∷ []) (
      refuse_on_untrusted_ancestors fs (lit "policy directory") above_policies
        (absolutize fs (policies holder) none))

abbrev an_audit_log_owned_by_another_uid_refuses_to_serve : Bool
an_audit_log_owned_by_another_uid_refuses_to_serve =
    let fs = mounted foreign_uid (make log 0o644 false system) in
    refused is_foreign (lit "audit log" ∷ shown log ∷ [])
      (judge_audit_log log fs.euid (fs.metadata log))

abbrev a_missing_audit_log_is_not_an_ownership_refusal : Bool
a_missing_audit_log_is_not_an_ownership_refusal =
    let blocker = below temp (lit "blocker.txt" ∷ []) in
    let fs = mounted euid (make blocker 0o644 false system) in
    let behind = below blocker (lit "decisions.jsonl" ∷ []) in
    is_ok ((judge_audit_log log fs.euid (fs.metadata log)))
    && is_ok ((judge_audit_log behind fs.euid (fs.metadata behind)))

a_foreign_owned_component_refuses_no_matter_how_tight_the_mode_passes :
    a_foreign_owned_component_refuses_no_matter_how_tight_the_mode ≡ true
unfolding check refuse_untrusted_policy_dir mounted refused warns shown text_eq lit visit
    judge_component foreign_owner
a_foreign_owned_component_refuses_no_matter_how_tight_the_mode_passes = refl

root_owned_components_and_ancestors_pass_passes : root_owned_components_and_ancestors_pass ≡ true
unfolding check refuse_untrusted_policy_dir mounted refused warns shown text_eq lit visit
    judge_component foreign_owner loose_writers loose_ancestor_writers
root_owned_components_and_ancestors_pass_passes = refl

a_foreign_owned_sticky_ancestor_still_refuses_passes :
    a_foreign_owned_sticky_ancestor_still_refuses ≡ true
unfolding check refuse_untrusted_policy_dir mounted refused warns shown text_eq lit visit
    foreign_owner
a_foreign_owned_sticky_ancestor_still_refuses_passes = refl

a_non_directory_ancestor_is_skipped_whoever_owns_it_passes :
    a_non_directory_ancestor_is_skipped_whoever_owns_it ≡ true
unfolding check refuse_untrusted_policy_dir mounted refused warns shown text_eq lit visit
a_non_directory_ancestor_is_skipped_whoever_owns_it_passes = refl

a_self_owned_component_is_still_judged_by_its_mode_passes :
    a_self_owned_component_is_still_judged_by_its_mode ≡ true
unfolding check refuse_untrusted_policy_dir mounted refused warns shown text_eq lit visit
    judge_component foreign_owner loose_writers
a_self_owned_component_is_still_judged_by_its_mode_passes = refl

a_policy_directory_owned_by_another_uid_refuses_to_serve_passes :
    a_policy_directory_owned_by_another_uid_refuses_to_serve ≡ true
unfolding check refuse_untrusted_policy_dir mounted refused warns shown text_eq lit visit
    refuse_if_untrusted judge_component foreign_owner facts_of
a_policy_directory_owned_by_another_uid_refuses_to_serve_passes = refl

an_ancestor_owned_by_another_uid_refuses_to_serve_passes :
    an_ancestor_owned_by_another_uid_refuses_to_serve ≡ true
unfolding check refuse_untrusted_policy_dir mounted refused warns shown text_eq lit visit
    refuse_on_untrusted_ancestors facts_of foreign_owner
an_ancestor_owned_by_another_uid_refuses_to_serve_passes = refl

an_audit_log_owned_by_another_uid_refuses_to_serve_passes :
    an_audit_log_owned_by_another_uid_refuses_to_serve ≡ true
unfolding check refuse_untrusted_policy_dir mounted refused warns shown text_eq lit visit
    foreign_owner
an_audit_log_owned_by_another_uid_refuses_to_serve_passes = refl

a_missing_audit_log_is_not_an_ownership_refusal_passes :
    a_missing_audit_log_is_not_an_ownership_refusal ≡ true
unfolding check refuse_untrusted_policy_dir mounted refused warns shown text_eq lit visit
a_missing_audit_log_is_not_an_ownership_refusal_passes = refl
