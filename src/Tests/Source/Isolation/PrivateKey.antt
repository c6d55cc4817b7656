-- ===== src/Tests/Source/Isolation/PrivateKey.antt =====
-- The unit tests of src/isolation.rs on the TLS private key.
use nono_cedar_pdp.Isolation.{visit}
use nono_cedar_pdp.Isolation.{refuse_on_untrusted_ancestors}
use nono_cedar_pdp.Base.{◌≡◌, refl, Bool, true, some, [], ◌∷◌, lit, text_eq}
use nono_cedar_pdp.Isolation.{
  refuse_a_readable_private_key, check_private_key, judge_private_key, judge_ancestor,
  foreign_owner, facts_of, loose_key_access, loose_ancestor_writers, octal,
}
use nono_cedar_pdp.Tests.Source.Disk.{
  Disk, temp, elsewhere, system, chmod, tls, key, private_key, mounted, shown,
}
use nono_cedar_pdp.Tests.Source.Refusals.{
  is_ancestor, is_foreign, is_io, is_accessible_key, refused, is_ok, warns, euid,
}

abbrev fixture : Disk
fixture = private_key system

abbrev a_group_readable_private_key_refuses_to_serve : Bool
a_group_readable_private_key_refuses_to_serve =
    refused is_accessible_key (lit "group" ∷ lit "0640" ∷ shown key ∷ lit "chmod 600" ∷ [])
      (refuse_a_readable_private_key (mounted euid (chmod key 0o640 fixture)) key)

abbrev a_world_readable_private_key_refuses_to_serve : Bool
a_world_readable_private_key_refuses_to_serve =
    refused is_accessible_key (lit "world" ∷ lit "0604" ∷ [])
      (refuse_a_readable_private_key (mounted euid (chmod key 0o604 fixture)) key)

abbrev the_private_key_refusal_states_its_scope_honestly : Bool
the_private_key_refusal_states_its_scope_honestly =
    refused is_accessible_key (lit "same user" ∷ lit "read grants" ∷ [])
      (refuse_a_readable_private_key (mounted euid (chmod key 0o644 fixture)) key)

abbrev a_private_key_under_a_loose_ancestor_refuses_to_serve : Bool
a_private_key_under_a_loose_ancestor_refuses_to_serve =
    refused is_ancestor (shown tls ∷ lit "0770" ∷ lit "private key" ∷ [])
      (refuse_a_readable_private_key (mounted euid (chmod tls 0o770 fixture)) key)

abbrev an_owner_only_private_key_passes : Bool
an_owner_only_private_key_passes = is_ok (refuse_a_readable_private_key (mounted euid fixture) key)

abbrev a_private_key_owned_by_another_uid_refuses_to_serve : Bool
a_private_key_owned_by_another_uid_refuses_to_serve =
    refused is_foreign (lit "private key" ∷ lit "500" ∷ shown key ∷ [])
      (refuse_a_readable_private_key (mounted 501 fixture) key)

abbrev a_private_key_we_cannot_stat_refuses_to_serve : Bool
a_private_key_we_cannot_stat_refuses_to_serve =
    refused is_io (lit "key.pem" ∷ lit "private key" ∷ [])
      (refuse_a_readable_private_key (mounted euid system) key)

abbrev a_private_key_inside_the_cwd_warns_that_the_agent_could_be_this_daemon : Bool
a_private_key_inside_the_cwd_warns_that_the_agent_could_be_this_daemon =
    warns
      ((shown key
          ∷ lit "impersonat"
          ∷ lit "read grants"
          ∷ lit "same user"
          ∷ lit "cannot read your profile"
          ∷ [])
        ∷ [])
      (check_private_key (mounted euid fixture) key (some temp))

abbrev a_private_key_outside_the_cwd_passes_without_warnings : Bool
a_private_key_outside_the_cwd_passes_without_warnings =
    warns [] (check_private_key (mounted euid fixture) key (some elsewhere))

abbrev the_containment_check_still_refuses_a_readable_key : Bool
the_containment_check_still_refuses_a_readable_key =
    refused is_accessible_key []
      (check_private_key (mounted euid (chmod key 0o640 fixture)) key (some temp))

a_group_readable_private_key_refuses_to_serve_passes :
    a_group_readable_private_key_refuses_to_serve ≡ true
unfolding refuse_a_readable_private_key check_private_key judge_private_key judge_ancestor
    foreign_owner facts_of loose_key_access loose_ancestor_writers octal mounted chmod refused warns
    shown text_eq lit refuse_on_untrusted_ancestors visit
a_group_readable_private_key_refuses_to_serve_passes = refl

a_world_readable_private_key_refuses_to_serve_passes :
    a_world_readable_private_key_refuses_to_serve ≡ true
unfolding refuse_a_readable_private_key check_private_key judge_private_key judge_ancestor
    foreign_owner facts_of loose_key_access loose_ancestor_writers octal mounted chmod refused warns
    shown text_eq lit refuse_on_untrusted_ancestors visit
a_world_readable_private_key_refuses_to_serve_passes = refl

the_private_key_refusal_states_its_scope_honestly_passes :
    the_private_key_refusal_states_its_scope_honestly ≡ true
unfolding refuse_a_readable_private_key check_private_key judge_private_key judge_ancestor
    foreign_owner facts_of loose_key_access loose_ancestor_writers octal mounted chmod refused warns
    shown text_eq lit refuse_on_untrusted_ancestors visit
the_private_key_refusal_states_its_scope_honestly_passes = refl

a_private_key_under_a_loose_ancestor_refuses_to_serve_passes :
    a_private_key_under_a_loose_ancestor_refuses_to_serve ≡ true
unfolding refuse_a_readable_private_key check_private_key judge_private_key judge_ancestor
    foreign_owner facts_of loose_key_access loose_ancestor_writers octal mounted chmod refused warns
    shown text_eq lit refuse_on_untrusted_ancestors visit
a_private_key_under_a_loose_ancestor_refuses_to_serve_passes = refl

an_owner_only_private_key_passes_passes : an_owner_only_private_key_passes ≡ true
unfolding refuse_a_readable_private_key check_private_key judge_private_key judge_ancestor
    foreign_owner facts_of loose_key_access loose_ancestor_writers octal mounted chmod refused warns
    shown text_eq lit refuse_on_untrusted_ancestors visit
an_owner_only_private_key_passes_passes = refl

a_private_key_owned_by_another_uid_refuses_to_serve_passes :
    a_private_key_owned_by_another_uid_refuses_to_serve ≡ true
unfolding refuse_a_readable_private_key check_private_key judge_private_key judge_ancestor
    foreign_owner facts_of loose_key_access loose_ancestor_writers octal mounted chmod refused warns
    shown text_eq lit refuse_on_untrusted_ancestors visit
a_private_key_owned_by_another_uid_refuses_to_serve_passes = refl

a_private_key_we_cannot_stat_refuses_to_serve_passes :
    a_private_key_we_cannot_stat_refuses_to_serve ≡ true
unfolding refuse_a_readable_private_key check_private_key judge_private_key judge_ancestor
    foreign_owner facts_of loose_key_access loose_ancestor_writers octal mounted chmod refused warns
    shown text_eq lit refuse_on_untrusted_ancestors visit
a_private_key_we_cannot_stat_refuses_to_serve_passes = refl

a_private_key_inside_the_cwd_warns_that_the_agent_could_be_this_daemon_passes :
    a_private_key_inside_the_cwd_warns_that_the_agent_could_be_this_daemon ≡ true
unfolding refuse_a_readable_private_key check_private_key judge_private_key judge_ancestor
    foreign_owner facts_of loose_key_access loose_ancestor_writers octal mounted chmod refused warns
    shown text_eq lit refuse_on_untrusted_ancestors visit
a_private_key_inside_the_cwd_warns_that_the_agent_could_be_this_daemon_passes = refl

a_private_key_outside_the_cwd_passes_without_warnings_passes :
    a_private_key_outside_the_cwd_passes_without_warnings ≡ true
unfolding refuse_a_readable_private_key check_private_key judge_private_key judge_ancestor
    foreign_owner facts_of loose_key_access loose_ancestor_writers octal mounted chmod refused warns
    shown text_eq lit refuse_on_untrusted_ancestors visit
a_private_key_outside_the_cwd_passes_without_warnings_passes = refl

the_containment_check_still_refuses_a_readable_key_passes :
    the_containment_check_still_refuses_a_readable_key ≡ true
unfolding refuse_a_readable_private_key check_private_key judge_private_key judge_ancestor
    foreign_owner facts_of loose_key_access loose_ancestor_writers octal mounted chmod refused warns
    shown text_eq lit refuse_on_untrusted_ancestors visit
the_containment_check_still_refuses_a_readable_key_passes = refl
