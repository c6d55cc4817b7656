-- ===== src/Tests/Source/Audit/File.antt =====
-- The unit tests of src/audit.rs on the file of the log: its mode, writes that fail, rotation. The
-- messages for the operator are left out.
use nono_cedar_pdp.Audit.Fields.ReadBack.{get}
use nono_cedar_pdp.Tests.Source.{begins}
use nono_cedar_pdp.Decision.{deny_with}
use nono_cedar_pdp.Sanitize.{hex_digit}
use nono_cedar_pdp.Sanitize.{escape_char}
use nono_cedar_pdp.Sanitize.{escape_all}
use nono_cedar_pdp.Query.{raw_summary}
use nono_cedar_pdp.Query.{action_name_of}
use nono_cedar_pdp.Audit.{target_rule_label}
use nono_cedar_pdp.Audit.{target_intercept_rule}
use nono_cedar_pdp.Audit.{target_child_pid}
use nono_cedar_pdp.Audit.{decision_name}
use nono_cedar_pdp.Audit.Sink.{write}
use nono_cedar_pdp.Audit.Sink.{take}
use nono_cedar_pdp.Audit.Sink.{roll_back}
use nono_cedar_pdp.Audit.Sink.{reopen}
use nono_cedar_pdp.Audit.Sink.{reattach}
use nono_cedar_pdp.Audit.Sink.{buffer}
use nono_cedar_pdp.Base.{decimal}
use nono_cedar_pdp.Base.{join}
use nono_cedar_pdp.Query.{resource_summary}
use nono_cedar_pdp.Query.{action_name}
use nono_cedar_pdp.Sanitize.{is_control}
use nono_cedar_pdp.Sanitize.{has_control}
use nono_cedar_pdp.Sanitize.{control_escape}
use nono_cedar_pdp.Audit.{decided}
use nono_cedar_pdp.Audit.Fields.{fields}
use nono_cedar_pdp.Utf8.{encode_char}
use nono_cedar_pdp.Utf8.{as_bytes}
use nono_cedar_pdp.Audit.LogFile.{ends_mid_line}
use nono_cedar_pdp.Audit.LogFile.{tighten_permissions}
use nono_cedar_pdp.Audit.LogFile.{open_log}
use nono_cedar_pdp.Base.{
  ◌≡◌, refl, ℕ, Bool, true, false, not, ◌&&◌, Option, none, some, List, [], ◌∷◌, length, ◌==◌, Text,
  Bytes, lit, text_eq,
}
use nono_cedar_pdp.Audit.{Line}
use nono_cedar_pdp.Audit.LogFile.{Found}
use nono_cedar_pdp.Audit.Sink.{Sink, open_sink, not_found, Answers, append, bytes_removed}
use nono_cedar_pdp.Audit.Sink.Lines.{read_lines}
use nono_cedar_pdp.Tests.Trails.{empty_found, fine, fresh}
use nono_cedar_pdp.Tests.Source.{mentions}
use nono_cedar_pdp.Tests.Source.Trail.{
  query, denied, value, is_text, has_text, json, logged, parses,
}

-- `AuditLog::open`, and a test on what it opens.
abbrev opened : Found → (Sink → Bool) → Bool
opened found test = elim (open_sink found) [ some s ↦ test s | none ↦ false ]

abbrev line : Text → Line
line reason = denied query reason none

abbrev lines : Sink → List Bytes
lines s = (read_lines s.file.contents).0

abbrev holds : Sink → Text → Bool
holds s t = mentions t s.file.contents

abbrev appends_one_json_line_per_decision : Bool
appends_one_json_line_per_decision =
    let a = line (lit "nope") in
    let b = line (lit "still nope") in
    opened empty_found (λ s.
      let after = logged ((fine, a) ∷ (fine, b) ∷ []) s in
      length (lines after) == 2 && parses (a ∷ b ∷ []) after.file.contents)
    && (is_text (lit "r1") (value a (lit "request_id"))
        && (is_text (lit "s1") (value a (lit "session_id"))
            && (is_text (lit "cedar") (value a (lit "backend"))
                && (is_text (lit "claude-code") (value a (lit "agent"))
                    && (is_text (lit "launchCommand") (value a (lit "action"))
                        && (is_text (lit "deny") (value a (lit "decision"))
                            && (is_text (lit "Nono::Caller::\"session\"")
                                  (value a (lit "principal"))
                                && (has_text (lit "git") (value a (lit "resource"))
                                    && has_text (lit "T") (value a (lit "ts"))))))))))

abbrev creates_the_log_with_owner_only_permissions : Bool
creates_the_log_with_owner_only_permissions = opened empty_found (λ s. s.file.mode == 0o600)

abbrev looser_permissions_on_an_existing_log_are_tightened : Bool
looser_permissions_on_an_existing_log_are_tightened =
    opened (record empty_found { mode = 0o644 })
      (λ s. (logged ((fine, line (lit "nope")) ∷ []) s).file.mode == 0o600)

-- The disk takes 120 bytes, then as many as there are.
abbrev a_partial_write_never_fuses_two_records_into_one_line : Bool
a_partial_write_never_fuses_two_records_into_one_line =
    let a = line (lit "full disk") in
    let b = line (lit "after recovery") in
    let after = logged ((record fine { write_fails = some 120 }, a) ∷ (fine, b) ∷ []) fresh in
    parses (a ∷ b ∷ []) after.file.contents && holds after (lit "after recovery")

abbrev a_write_only_log_still_opens : Bool
a_write_only_log_still_opens =
    opened (record empty_found { opens_read = false; mode = 0o200 })
      (λ s. length (lines (logged ((fine, line (lit "nope")) ∷ []) s)) == 1)

abbrev truncated : Text
truncated = lit "{\"ts\":\"2026-07-25T00:00:00Z\",\"request_id\":\"full-6\",\"princ"

abbrev are : Bytes → Bytes → List Bytes → Bool
are a b (c ∷ d ∷ []) = text_eq a c && text_eq b d
are a b _ = false

abbrev a_truncated_final_line_is_closed_before_the_next_record : Bool
a_truncated_final_line_is_closed_before_the_next_record =
    let next = line (lit "after recovery") in
    opened (record empty_found { contents = truncated })
      (λ s. are truncated (json next) (lines (logged ((fine, next) ∷ []) s)))
    && is_text (lit "after recovery") (value next (lit "reason"))

-- At the path there is nothing, and a file can be created there.
abbrev renamed : Answers
renamed = record fine { attachment = not_found }

-- What the handle's file has when the path loses it, and the log after a further record.
abbrev a_rotated_log_is_reopened_at_the_configured_path : Bool
a_rotated_log_is_reopened_at_the_configured_path =
    let a = line (lit "before rotation") in
    let b = line (lit "after rotation") in
    opened empty_found (λ s.
      let archived = logged ((fine, a) ∷ []) s in
      let after = logged ((renamed, b) ∷ []) archived in
      (holds after (lit "after rotation") && not (holds after (lit "before rotation")))
      && (parses (a ∷ b ∷ []) after.file.contents
          && ((holds archived (lit "before rotation")
                && not (holds archived (lit "after rotation")))
              && after.file.mode == 0o600)))

abbrev a_deleted_log_is_recreated_at_the_configured_path : Bool
a_deleted_log_is_recreated_at_the_configured_path = opened empty_found (λ s.
    let after =
      logged ((fine, line (lit "before delete")) ∷ (renamed, line (lit "after delete")) ∷ []) s in
    length (lines after) == 1 && (holds after (lit "after delete") && after.file.mode == 0o600))

-- The file can be neither opened nor created: the handle's file goes on.
abbrev a_reopen_that_fails_keeps_recording_and_says_so : Bool
a_reopen_that_fails_keeps_recording_and_says_so =
    let locked : Answers = record renamed {
      at_path = record empty_found { opens_read = false; opens_append = false };
    } in
    opened empty_found (λ s.
      holds
        (logged ((fine, line (lit "before rotation")) ∷ (locked, line (lit "after rotation")) ∷ [])
          s)
        (lit "after rotation"))

abbrev shrank : Option ℕ → Bool
shrank (some n) = true
shrank none = false

abbrev an_externally_truncated_log_is_reported : Bool
an_externally_truncated_log_is_reported = opened empty_found (λ s.
    let before = logged ((fine, line (lit "before truncate")) ∷ []) s in
    let cut : Sink = record before { file = record (before.file) { contents = [] } } in
    holds (logged ((fine, line (lit "after truncate")) ∷ []) cut) (lit "after truncate")
    && shrank (bytes_removed (some (length cut.file.contents)) cut.last_size))

appends_one_json_line_per_decision_passes : appends_one_json_line_per_decision ≡ true
unfolding lit open_sink open_log read_lines logged append ends_mid_line as_bytes encode_char fields
    decided control_escape has_control is_control action_name resource_summary join decimal
    tighten_permissions buffer reattach reopen roll_back take write decision_name target_child_pid
    target_intercept_rule target_rule_label action_name_of raw_summary escape_all escape_char
    hex_digit json deny_with parses text_eq get mentions
appends_one_json_line_per_decision_passes = refl

creates_the_log_with_owner_only_permissions_passes :
    creates_the_log_with_owner_only_permissions ≡ true
unfolding lit open_sink open_log tighten_permissions
creates_the_log_with_owner_only_permissions_passes = refl

looser_permissions_on_an_existing_log_are_tightened_passes :
    looser_permissions_on_an_existing_log_are_tightened ≡ true
unfolding lit open_sink open_log logged append tighten_permissions
looser_permissions_on_an_existing_log_are_tightened_passes = refl

a_partial_write_never_fuses_two_records_into_one_line_passes :
    a_partial_write_never_fuses_two_records_into_one_line ≡ true
unfolding lit parses read_lines logged append as_bytes encode_char fields decided control_escape
    has_control is_control action_name resource_summary join decimal decision_name deny_with
    ends_mid_line open_log tighten_permissions buffer reattach reopen roll_back take write
    target_child_pid target_intercept_rule target_rule_label text_eq action_name_of raw_summary
    escape_all escape_char hex_digit json mentions
a_partial_write_never_fuses_two_records_into_one_line_passes = refl

a_write_only_log_still_opens_passes : a_write_only_log_still_opens ≡ true
unfolding lit open_sink open_log read_lines logged append as_bytes encode_char fields decided
    control_escape has_control is_control action_name resource_summary join decimal decision_name
    ends_mid_line tighten_permissions buffer reattach reopen roll_back take write target_child_pid
    target_intercept_rule target_rule_label action_name_of raw_summary escape_all escape_char
    hex_digit json deny_with
a_write_only_log_still_opens_passes = refl

a_truncated_final_line_is_closed_before_the_next_record_passes :
    a_truncated_final_line_is_closed_before_the_next_record ≡ true
unfolding lit open_sink open_log read_lines logged append ends_mid_line as_bytes encode_char fields
    decided control_escape has_control is_control action_name resource_summary join decimal
    tighten_permissions buffer reattach reopen roll_back take write decision_name target_child_pid
    target_intercept_rule target_rule_label action_name_of raw_summary escape_all escape_char
    hex_digit json deny_with text_eq get
a_truncated_final_line_is_closed_before_the_next_record_passes = refl

a_rotated_log_is_reopened_at_the_configured_path_passes :
    a_rotated_log_is_reopened_at_the_configured_path ≡ true
unfolding lit open_sink open_log mentions logged append ends_mid_line as_bytes encode_char fields
    decided control_escape has_control is_control action_name resource_summary join decimal
    tighten_permissions buffer reattach reopen roll_back take write decision_name target_child_pid
    target_intercept_rule target_rule_label action_name_of raw_summary escape_all escape_char
    hex_digit json begins deny_with parses read_lines text_eq
a_rotated_log_is_reopened_at_the_configured_path_passes = refl

a_deleted_log_is_recreated_at_the_configured_path_passes :
    a_deleted_log_is_recreated_at_the_configured_path ≡ true
unfolding lit open_sink open_log read_lines logged append ends_mid_line as_bytes encode_char fields
    decided control_escape has_control is_control action_name resource_summary join decimal
    tighten_permissions buffer reattach reopen roll_back take write decision_name target_child_pid
    target_intercept_rule target_rule_label action_name_of raw_summary escape_all escape_char
    hex_digit json deny_with mentions
a_deleted_log_is_recreated_at_the_configured_path_passes = refl

a_reopen_that_fails_keeps_recording_and_says_so_passes :
    a_reopen_that_fails_keeps_recording_and_says_so ≡ true
unfolding lit open_sink open_log mentions logged append ends_mid_line as_bytes encode_char fields
    decided control_escape has_control is_control action_name resource_summary join decimal
    tighten_permissions buffer reattach reopen roll_back take write decision_name target_child_pid
    target_intercept_rule target_rule_label action_name_of raw_summary escape_all escape_char
    hex_digit json begins deny_with
a_reopen_that_fails_keeps_recording_and_says_so_passes = refl

an_externally_truncated_log_is_reported_passes : an_externally_truncated_log_is_reported ≡ true
unfolding lit open_sink open_log mentions logged append as_bytes encode_char fields decided
    control_escape has_control is_control action_name resource_summary join decimal decision_name
    ends_mid_line tighten_permissions buffer reattach reopen roll_back take write target_child_pid
    target_intercept_rule target_rule_label action_name_of raw_summary escape_all escape_char
    hex_digit json begins deny_with bytes_removed
an_externally_truncated_log_is_reported_passes = refl
