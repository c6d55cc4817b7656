-- ===== src/Tests/Source/Audit/PolicySet.antt =====
-- The unit tests of src/audit.rs on the lines of sets of policies.
use nono_cedar_pdp.Tests.Source.{begins}
use nono_cedar_pdp.Tests.Source.Trail.{json}
use nono_cedar_pdp.Sanitize.{hex_digit}
use nono_cedar_pdp.Audit.{outcome_reason}
use nono_cedar_pdp.Audit.{outcome_hash}
use nono_cedar_pdp.Audit.{outcome_files}
use nono_cedar_pdp.Audit.Sink.{write}
use nono_cedar_pdp.Audit.Sink.{take}
use nono_cedar_pdp.Audit.Sink.{roll_back}
use nono_cedar_pdp.Audit.Sink.{reopen}
use nono_cedar_pdp.Audit.Sink.{reattach}
use nono_cedar_pdp.Audit.Sink.{buffer}
use nono_cedar_pdp.Audit.LogFile.{tighten_permissions}
use nono_cedar_pdp.Audit.LogFile.{open_log}
use nono_cedar_pdp.Audit.LogFile.{ends_mid_line}
use nono_cedar_pdp.Audit.Sink.Lines.{read_lines}
use nono_cedar_pdp.Sanitize.{escape_char}
use nono_cedar_pdp.Sanitize.{escape_all}
use nono_cedar_pdp.Base.{decimal}
use nono_cedar_pdp.Utf8.{encode_char}
use nono_cedar_pdp.Utf8.{as_bytes}
use nono_cedar_pdp.Audit.Sink.{append}
use nono_cedar_pdp.Base.{contains}
use nono_cedar_pdp.Tests.Source.{mentions}
use nono_cedar_pdp.Sanitize.{is_control}
use nono_cedar_pdp.Sanitize.{has_control}
use nono_cedar_pdp.Sanitize.{control_escape}
use nono_cedar_pdp.Audit.{name}
use nono_cedar_pdp.Audit.{policy_set}
use nono_cedar_pdp.Base.{text_eq}
use nono_cedar_pdp.Audit.Fields.{fields}
use nono_cedar_pdp.Audit.Fields.ReadBack.{get}
use nono_cedar_pdp.Base.{◌≡◌, refl, Bool, true, false, ◌&&◌, [], ◌∷◌, ◌++◌, lit}
use nono_cedar_pdp.Audit.{loaded, refused, failed}
use nono_cedar_pdp.Audit.Fields.{Value, boolean, strings}
use nono_cedar_pdp.Tests.Trails.{fine, fresh}
use nono_cedar_pdp.Tests.Source.Trail.{
  policies, value, is_text, has_text, is_number, is_null, logged, parses, is_clean,
}

abbrev is_true : Value → Bool
is_true (boolean b) = b
is_true _ = false

-- `line["files"][0]`
abbrev first : Value → Value
first (strings (t ∷ ts)) = Value.string t
first _ = Value.null

abbrev a_loaded_policy_set_records_its_hash_files_and_generation : Bool
a_loaded_policy_set_records_its_hash_files_and_generation =
    let line = policies 7 true (loaded (lit "sha256:abc") (lit "/policies/10-git.cedar" ∷ [])) in
    is_text (lit "policy-set") (value line (lit "kind"))
    && (is_text (lit "loaded") (value line (lit "outcome"))
        && (is_number 7 (value line (lit "generation"))
            && (is_text (lit "sha256:abc") (value line (lit "content_hash"))
                && (is_text (lit "/policies/10-git.cedar") (first (value line (lit "files")))
                    && (is_true (value line (lit "at_risk"))
                        && is_null (value line (lit "reason")))))))

abbrev a_refused_reload_records_a_null_hash_and_the_generation_still_deciding : Bool
a_refused_reload_records_a_null_hash_and_the_generation_still_deciding =
    let line = policies 3 false (refused (lit "mode 0770 on /policies")) in
    is_text (lit "refused") (value line (lit "outcome"))
    && (is_number 3 (value line (lit "generation"))
        && (is_null (value line (lit "content_hash"))
            && (is_null (value line (lit "files"))
                && has_text (lit "0770") (value line (lit "reason")))))

abbrev a_failed_reload_records_a_null_hash : Bool
a_failed_reload_records_a_null_hash =
    let line = policies 2 false (failed (lit "unexpected token")) in
    is_text (lit "failed") (value line (lit "outcome"))
    && (is_number 2 (value line (lit "generation")) && is_null (value line (lit "content_hash")))

abbrev control_bytes_in_a_provenance_line_cannot_reach_a_terminal_raw : Bool
control_bytes_in_a_provenance_line_cannot_reach_a_terminal_raw =
    let a =
      policies 1 false (refused (lit "bad " ++ (0x7f ∷ (lit " path " ++ (0x9b ∷ lit "31m"))))) in
    let b =
      policies 1 false
        (loaded (lit "sha256:abc") ((lit "/p/evil" ++ (0x7f ∷ 0x9b ∷ lit "31m.cedar")) ∷ [])) in
    let raw = (logged ((fine, a) ∷ (fine, b) ∷ []) fresh).file.contents in
    is_clean raw && parses (a ∷ b ∷ []) raw

a_loaded_policy_set_records_its_hash_files_and_generation_passes :
    a_loaded_policy_set_records_its_hash_files_and_generation ≡ true
unfolding lit get fields text_eq policy_set name control_escape has_control is_control
a_loaded_policy_set_records_its_hash_files_and_generation_passes = refl

a_refused_reload_records_a_null_hash_and_the_generation_still_deciding_passes :
    a_refused_reload_records_a_null_hash_and_the_generation_still_deciding ≡ true
unfolding lit get fields text_eq policy_set name mentions control_escape has_control is_control
a_refused_reload_records_a_null_hash_and_the_generation_still_deciding_passes = refl

a_failed_reload_records_a_null_hash_passes : a_failed_reload_records_a_null_hash ≡ true
unfolding lit get fields text_eq policy_set name
a_failed_reload_records_a_null_hash_passes = refl

control_bytes_in_a_provenance_line_cannot_reach_a_terminal_raw_passes :
    control_bytes_in_a_provenance_line_cannot_reach_a_terminal_raw ≡ true
unfolding lit contains logged append as_bytes encode_char fields policy_set name decimal
    control_escape has_control is_control escape_all escape_char mentions parses read_lines
    ends_mid_line open_log tighten_permissions buffer reattach reopen roll_back take write
    outcome_files outcome_hash outcome_reason text_eq hex_digit json begins
control_bytes_in_a_provenance_line_cannot_reach_a_terminal_raw_passes = refl
