-- ===== src/Tests/Source/Loading.antt =====
-- The unit tests of src/cedar/engine.rs on the load of a directory and on its digest, over a crate
-- that reads two policies in every file: the first has an `@id`, the second has none.
use nono_cedar_pdp.ContentDigest.{file}
use nono_cedar_pdp.Utf8.{is_scalar}
use nono_cedar_pdp.Utf8.{encode_char}
use nono_cedar_pdp.Utf8.{as_bytes}
use nono_cedar_pdp.Sanitize.{hex_digit}
use nono_cedar_pdp.Loader.{stem_of}
use nono_cedar_pdp.Loader.{split_last_dot}
use nono_cedar_pdp.Loader.{is_hidden}
use nono_cedar_pdp.Loader.{insert_entry}
use nono_cedar_pdp.Loader.{extension_of}
use nono_cedar_pdp.Decision.{text_le}
use nono_cedar_pdp.ContentDigest.{to_le_bytes}
use nono_cedar_pdp.ContentDigest.{hex}
use nono_cedar_pdp.Base.{decimal}
use nono_cedar_pdp.Loader.{file_stem}
use nono_cedar_pdp.Loader.{provenance_id}
use nono_cedar_pdp.Loader.{checked}
use nono_cedar_pdp.Loader.{add_all}
use nono_cedar_pdp.Loader.{load_file}
use nono_cedar_pdp.Loader.{sort_entries}
use nono_cedar_pdp.Loader.{load_files}
use nono_cedar_pdp.Utf8.{from_utf8}
use nono_cedar_pdp.Loader.{skip_reason}
use nono_cedar_pdp.Loader.{extension}
use nono_cedar_pdp.Loader.{is_cedar}
use nono_cedar_pdp.Loader.{select}
use nono_cedar_pdp.Base.{
  ◌≡◌, refl, Bool, true, false, not, ◌&&◌, none, some, List, [], ◌∷◌, ◌++◌, map, ◌==◌, Text, lit,
  text_eq, Result, ok, err,
}
use nono_cedar_pdp.Cedar.{Cedar}
use nono_cedar_pdp.ContentDigest.{file, finish}
use nono_cedar_pdp.Loader.{
  PolicyLoadError, io, read_file, empty, DirEntry, LoadedPolicies, load_dir, load_entries,
}
use nono_cedar_pdp.Loader.Display.{load_text}
use nono_cedar_pdp.Tests.Toy.{ToyPolicy, toy, env}
use nono_cedar_pdp.Tests.Source.{begins, mentions}

abbrev crate : Cedar
crate = record toy {
  set_from_str =
      λ t. ok (record { name = lit "allow-git"; id = [] } ∷ record { name = []; id = [] } ∷ []);
  id_annotation = λ p. elim p.name [ [] ↦ none | c ∷ cs ↦ some (c ∷ cs) ];
}

-- `dir_with`, a file at a time.
abbrev named : Text → Text → Result Text (DirEntry Text)
named name body = ok (record { name = name; is_file = true; contents = ok body })

-- `GOOD`
abbrev good : Text
good =
    lit
      "\n@id(\"allow-git\")\npermit (principal, action == Nono::Action::\"launchCommand\", resource)\nwhen { resource.command == \"git\" };\n\nforbid (principal, action == Nono::Action::\"launchCommand\", resource)\nwhen { resource.args.contains(\"--force\") };\n"

abbrev load_all :
    List (Result Text (DirEntry Text)) → Result (PolicyLoadError Text) (LoadedPolicies crate)
load_all listing = load_dir crate env (lit "/p") (ok listing) tt 1

abbrev holds :
    (LoadedPolicies crate → Bool) → Result (PolicyLoadError Text) (LoadedPolicies crate) → Bool
holds test (ok l) = test l
holds test (err e) = false

abbrev same_texts : List Text → List Text → Bool
same_texts [] [] = true
same_texts (s ∷ ss) (t ∷ ts) = text_eq s t && same_texts ss ts
same_texts _ _ = false

abbrev ids : List ToyPolicy → List Text
ids ps = map (λ p. p.id) ps

abbrev loads_policies_with_provenance_ids : Bool
loads_policies_with_provenance_ids =
    holds
      (λ l.
        same_texts (ids l.set) (lit "git:allow-git" ∷ lit "git:1" ∷ [])
        && (l.generation == 1 && same_texts l.files (lit "git.cedar" ∷ [])))
      (load_all (named (lit "git.cedar") good ∷ []))

abbrev ignores_non_cedar_files : Bool
ignores_non_cedar_files =
    holds (λ l. same_texts l.files (lit "git.cedar" ∷ []))
      (load_all (named (lit "git.cedar") good ∷ named (lit "README.md") (lit "not a policy") ∷ []))

abbrev is_empty : Result (PolicyLoadError Text) (LoadedPolicies crate) → Bool
is_empty (err (empty source)) = true
is_empty _ = false

abbrev empty_dir_is_an_error_not_a_deny_everything_daemon : Bool
empty_dir_is_an_error_not_a_deny_everything_daemon = is_empty (load_all [])

-- A link whose target is missing, and a directory, are no files.
abbrev no_file : Text → Result Text (DirEntry Text)
no_file name = ok (record { name = name; is_file = false; contents = err (lit "no file") })

abbrev editor_sidecars_and_cedar_named_directories_are_ignored : Bool
editor_sidecars_and_cedar_named_directories_are_ignored =
    holds
      (λ l.
        same_texts l.files (lit "10-git.cedar" ∷ [])
        && same_texts (ids l.set) (lit "10-git:allow-git" ∷ lit "10-git:1" ∷ []))
      (load_all (
        named (lit "10-git.cedar") good
        ∷ named (lit "10-git.cedar~") good
        ∷ no_file (lit ".#10-git.cedar")
        ∷ no_file (lit "archive.cedar")
        ∷ []))

abbrev text_of : PolicyLoadError Text → Text
text_of e = load_text (λ s. s) (λ name. lit "/p/" ++ name) e

abbrev is_io : PolicyLoadError Text → Bool
is_io (io path source) = true
is_io _ = false

abbrev is_read_file : PolicyLoadError Text → Bool
is_read_file (read_file path source) = true
is_read_file _ = false

abbrev fails :
    (PolicyLoadError Text → Bool) → Result (PolicyLoadError Text) (LoadedPolicies crate) → Bool
fails test (ok l) = false
fails test (err e) = test e

abbrev an_unenumerable_directory_entry_fails_the_load_naming_the_directory : Bool
an_unenumerable_directory_entry_fails_the_load_naming_the_directory =
    fails
      (λ e.
        is_io e
        && (mentions (lit "reading policy dir") (text_of e)
            && (mentions (lit "/p") (text_of e)
                && not (mentions (lit "reading policy file") (text_of e)))))
      (load_entries crate env (lit "/p")
        (named (lit "git.cedar") good ∷ err (lit "Input/output error") ∷ []) tt 1)

abbrev an_unreadable_policy_file_is_reported_as_a_file_error : Bool
an_unreadable_policy_file_is_reported_as_a_file_error =
    let bad : DirEntry Text = record {
      name = lit "bad.cedar";
      is_file = true;
      contents = err (lit "stream did not contain valid UTF-8");
    } in
    fails
      (λ e.
        is_read_file e
        && (mentions (lit "reading policy file") (text_of e)
            && mentions (lit "bad.cedar") (text_of e)))
      (load_all (ok bad ∷ []))

-- Two loads, compared by their hashes.
abbrev hash_of : Result (PolicyLoadError Text) (LoadedPolicies crate) → Text
hash_of (ok l) = l.content_hash
hash_of (err e) = []

abbrev differ : List (Result Text (DirEntry Text)) → List (Result Text (DirEntry Text)) → Bool
differ before after =
    begins (lit "sha256:") (hash_of (load_all before))
    && (begins (lit "sha256:") (hash_of (load_all after))
        && not (text_eq (hash_of (load_all before)) (hash_of (load_all after))))

abbrev an_unchanged_policy_directory_hashes_the_same_twice : Bool
an_unchanged_policy_directory_hashes_the_same_twice =
    let dir = named (lit "a.cedar") good ∷ [] in
    let first = hash_of (load_dir crate env (lit "/p") (ok dir) tt 1) in
    let second = hash_of (load_dir crate env (lit "/p") (ok dir) tt 2) in
    text_eq first second && begins (lit "sha256:") first

abbrev editing_a_policy_files_content_changes_the_hash : Bool
editing_a_policy_files_content_changes_the_hash = differ (named (lit "a.cedar") good ∷ []) (
    named (lit "a.cedar") (good ++ lit "\nforbid (principal, action, resource) when { 1 == 2 };")
    ∷ [])

abbrev renaming_a_policy_file_changes_the_hash_even_with_identical_content : Bool
renaming_a_policy_file_changes_the_hash_even_with_identical_content =
    differ (named (lit "a.cedar") good ∷ []) (named (lit "b.cedar") good ∷ [])

abbrev the_hash_framing_is_unambiguous_across_the_name_content_boundary : Bool
the_hash_framing_is_unambiguous_across_the_name_content_boundary = not (
    text_eq (finish env.sha256 (file [] (lit "ab") (lit "c")))
      (finish env.sha256 (file [] (lit "a") (lit "bc"))))

abbrev the_digest_agrees_with_itself_on_identical_input : Bool
the_digest_agrees_with_itself_on_identical_input =
    text_eq (finish env.sha256 (file [] (lit "a.cedar") good))
      (finish env.sha256 (file [] (lit "a.cedar") good))

abbrev adding_a_second_policy_file_changes_the_hash : Bool
adding_a_second_policy_file_changes_the_hash = differ (named (lit "a.cedar") good ∷ []) (
    named (lit "a.cedar") good
    ∷ named (lit "b.cedar") (lit "forbid (principal, action, resource) when { 1 == 2 };")
    ∷ [])

loads_policies_with_provenance_ids_passes : loads_policies_with_provenance_ids ≡ true
unfolding lit load_dir load_entries select is_cedar extension text_eq skip_reason from_utf8
    load_files sort_entries load_file add_all checked provenance_id file_stem decimal
loads_policies_with_provenance_ids_passes = refl

ignores_non_cedar_files_passes : ignores_non_cedar_files ≡ true
unfolding lit load_dir load_entries select is_cedar extension text_eq skip_reason from_utf8
    load_files sort_entries load_file add_all checked
ignores_non_cedar_files_passes = refl

empty_dir_is_an_error_not_a_deny_everything_daemon_passes :
    empty_dir_is_an_error_not_a_deny_everything_daemon ≡ true
unfolding lit load_dir load_entries select load_files sort_entries checked
empty_dir_is_an_error_not_a_deny_everything_daemon_passes = refl

editor_sidecars_and_cedar_named_directories_are_ignored_passes :
    editor_sidecars_and_cedar_named_directories_are_ignored ≡ true
unfolding lit load_dir load_entries select is_cedar extension text_eq skip_reason from_utf8
    load_files sort_entries load_file add_all checked provenance_id file_stem decimal
editor_sidecars_and_cedar_named_directories_are_ignored_passes = refl

an_unenumerable_directory_entry_fails_the_load_naming_the_directory_passes :
    an_unenumerable_directory_entry_fails_the_load_naming_the_directory ≡ true
unfolding lit load_entries select is_cedar extension text_eq skip_reason from_utf8 mentions
    load_text
an_unenumerable_directory_entry_fails_the_load_naming_the_directory_passes = refl

an_unreadable_policy_file_is_reported_as_a_file_error_passes :
    an_unreadable_policy_file_is_reported_as_a_file_error ≡ true
unfolding lit load_dir load_entries select is_cedar extension text_eq skip_reason from_utf8
    load_files sort_entries load_file mentions load_text
an_unreadable_policy_file_is_reported_as_a_file_error_passes = refl

an_unchanged_policy_directory_hashes_the_same_twice_passes :
    an_unchanged_policy_directory_hashes_the_same_twice ≡ true
unfolding lit text_eq load_dir load_entries select is_cedar extension skip_reason from_utf8
    load_files sort_entries load_file add_all checked finish hex file to_le_bytes decimal text_le
    extension_of file_stem insert_entry is_hidden provenance_id split_last_dot stem_of hex_digit
    as_bytes encode_char is_scalar begins
an_unchanged_policy_directory_hashes_the_same_twice_passes = refl

editing_a_policy_files_content_changes_the_hash_passes :
    editing_a_policy_files_content_changes_the_hash ≡ true
unfolding lit begins load_dir load_entries select is_cedar extension text_eq skip_reason from_utf8
    load_files sort_entries load_file add_all checked finish hex file decimal to_le_bytes text_le
    extension_of file_stem insert_entry is_hidden provenance_id split_last_dot stem_of hex_digit
    as_bytes encode_char is_scalar
editing_a_policy_files_content_changes_the_hash_passes = refl

renaming_a_policy_file_changes_the_hash_even_with_identical_content_passes :
    renaming_a_policy_file_changes_the_hash_even_with_identical_content ≡ true
unfolding lit begins load_dir load_entries select is_cedar extension text_eq skip_reason from_utf8
    load_files sort_entries load_file add_all checked finish hex file decimal to_le_bytes text_le
    extension_of file_stem insert_entry is_hidden provenance_id split_last_dot stem_of hex_digit
    as_bytes encode_char is_scalar
renaming_a_policy_file_changes_the_hash_even_with_identical_content_passes = refl

the_hash_framing_is_unambiguous_across_the_name_content_boundary_passes :
    the_hash_framing_is_unambiguous_across_the_name_content_boundary ≡ true
unfolding lit text_eq finish hex file to_le_bytes hex_digit
the_hash_framing_is_unambiguous_across_the_name_content_boundary_passes = refl

the_digest_agrees_with_itself_on_identical_input_passes :
    the_digest_agrees_with_itself_on_identical_input ≡ true
unfolding lit text_eq finish hex file to_le_bytes hex_digit
the_digest_agrees_with_itself_on_identical_input_passes = refl

adding_a_second_policy_file_changes_the_hash_passes :
    adding_a_second_policy_file_changes_the_hash ≡ true
unfolding lit begins load_dir load_entries select is_cedar extension text_eq skip_reason from_utf8
    load_files sort_entries load_file add_all checked finish text_le hex decimal file to_le_bytes
    extension_of file_stem insert_entry is_hidden provenance_id split_last_dot stem_of hex_digit
    as_bytes encode_char is_scalar
adding_a_second_policy_file_changes_the_hash_passes = refl
