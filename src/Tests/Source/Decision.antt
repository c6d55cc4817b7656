-- ===== src/Tests/Source/Decision.antt =====
-- The unit tests of src/decision.rs and src/query.rs.
use nono_cedar_pdp.Base.{
  ◌≡◌, refl, Bool, true, false, not, ◌&&◌, none, List, [], ◌∷◌, ◌++◌, Text, lit, text_eq, join,
}
use nono_cedar_pdp.Tests.Source.{begins, mentions}
use nono_cedar_pdp.Sanitize.{
  is_control, has_control, hex_digit, escape_char, escape_all, control_escape,
}
use nono_cedar_pdp.Query.{CallerKind, command_target, PolicyQuery, resource_summary}
use nono_cedar_pdp.Wire.{WebhookResponse, allow, deny}
use nono_cedar_pdp.Decision.{Decision, deny_with, to_wire}

-- `assert_eq!` on a response.
abbrev same_response : WebhookResponse → WebhookResponse → Bool
same_response allow allow = true
same_response (deny s) (deny t) = text_eq s t
same_response _ _ = false

abbrev is_empty : List Text → Bool
is_empty [] = true
is_empty (x ∷ xs) = false

abbrev deny_carries_no_matched_policies : Bool
deny_carries_no_matched_policies =
    let d = deny_with (lit "nope") in
    not d.allow
    && (is_empty d.matched
        && (text_eq d.reason (lit "nope") && same_response (to_wire d) (deny (lit "nope"))))

abbrev deny_reasons_carry_no_raw_control_bytes : Bool
deny_reasons_carry_no_raw_control_bytes =
    let d = deny_with (
      lit "could not build request: git"
      ++ (0x1b ∷ (lit "[2K" ++ (0x0d ∷ lit "DENY OVERRIDDEN")))) in
    not (has_control d.reason)
    && (mentions (lit "\\u{001b}") d.reason && same_response (to_wire d) (deny d.reason))

abbrev allow_maps_to_the_allow_wire_shape : Bool
allow_maps_to_the_allow_wire_shape =
    let d : Decision = record {
      allow = true;
      matched = lit "a:b" ∷ [];
      reason = lit "permitted by a:b";
      eval_us = 1;
    } in
    same_response (to_wire d) allow

abbrev resource_summary_escapes_control_bytes_from_the_command_line : Bool
resource_summary_escapes_control_bytes_from_the_command_line =
    let q : PolicyQuery = record {
      agent = lit "claude-code";
      session_id = lit "s1";
      caller = lit "session";
      caller_kind = CallerKind.session;
      request_id = lit "r1";
      backend = lit "cedar";
      reason = none;
      target = command_target (record {
        command = lit "git";
        args =
            lit
              "/private/tmp/nono-tool-sandbox-13819-1784990893285791000-a4d3bceb3ec061c0/shims/git"
            ∷ (lit "commit" ++ (0x1b ∷ (lit "[2K" ++ (0x0d ∷ lit "-m"))))
            ∷ lit "ok"
            ∷ [];
        intercept_rule = lit "commit";
        child_pid = 1;
      });
    } in
    not (has_control (resource_summary q)) && mentions (lit "\\u{001b}") (resource_summary q)

deny_carries_no_matched_policies_passes : deny_carries_no_matched_policies ≡ true
unfolding lit text_eq begins mentions join control_escape escape_all escape_char hex_digit
    has_control is_control deny_with to_wire resource_summary
deny_carries_no_matched_policies_passes = refl

deny_reasons_carry_no_raw_control_bytes_passes : deny_reasons_carry_no_raw_control_bytes ≡ true
unfolding lit text_eq begins mentions join control_escape escape_all escape_char hex_digit
    has_control is_control deny_with to_wire resource_summary
deny_reasons_carry_no_raw_control_bytes_passes = refl

allow_maps_to_the_allow_wire_shape_passes : allow_maps_to_the_allow_wire_shape ≡ true
unfolding lit text_eq begins mentions join control_escape escape_all escape_char hex_digit
    has_control is_control deny_with to_wire resource_summary
allow_maps_to_the_allow_wire_shape_passes = refl

resource_summary_escapes_control_bytes_from_the_command_line_passes :
    resource_summary_escapes_control_bytes_from_the_command_line ≡ true
unfolding lit text_eq begins mentions join control_escape escape_all escape_char hex_digit
    has_control is_control deny_with to_wire resource_summary
resource_summary_escapes_control_bytes_from_the_command_line_passes = refl
