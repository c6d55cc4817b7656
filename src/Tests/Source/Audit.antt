-- ===== src/Tests/Source/Audit.antt =====
-- The unit tests of src/audit.rs on the lines of decisions.
pub mod File
pub mod PolicySet
use nono_cedar_pdp.Tests.Source.{mentions}
use nono_cedar_pdp.Decision.{deny_with}
use nono_cedar_pdp.Config.{unknown_agent}
use nono_cedar_pdp.Config.{lookup}
use nono_cedar_pdp.Config.{agent_for}
use nono_cedar_pdp.Adapter.{scrape_text}
use nono_cedar_pdp.Tests.Source.Json.{member}
use nono_cedar_pdp.Adapter.{scrape_value}
use nono_cedar_pdp.Tests.Source.Trail.{json}
use nono_cedar_pdp.Sanitize.{hex_digit}
use nono_cedar_pdp.Query.{raw_summary}
use nono_cedar_pdp.Query.{action_name_of}
use nono_cedar_pdp.Audit.{target_rule_label}
use nono_cedar_pdp.Audit.{target_intercept_rule}
use nono_cedar_pdp.Audit.{target_child_pid}
use nono_cedar_pdp.Audit.Sink.{write}
use nono_cedar_pdp.Audit.Sink.{take}
use nono_cedar_pdp.Audit.Sink.{roll_back}
use nono_cedar_pdp.Audit.Sink.{reopen}
use nono_cedar_pdp.Audit.Sink.{reattach}
use nono_cedar_pdp.Audit.Sink.{buffer}
use nono_cedar_pdp.Audit.LogFile.{tighten_permissions}
use nono_cedar_pdp.Audit.LogFile.{open_log}
use nono_cedar_pdp.Audit.LogFile.{ends_mid_line}
use nono_cedar_pdp.Audit.{decision_name}
use nono_cedar_pdp.Sanitize.{escape_char}
use nono_cedar_pdp.Sanitize.{escape_all}
use nono_cedar_pdp.Base.{decimal}
use nono_cedar_pdp.Base.{join}
use nono_cedar_pdp.Query.{resource_summary}
use nono_cedar_pdp.Query.{action_name}
use nono_cedar_pdp.Utf8.{encode_char}
use nono_cedar_pdp.Utf8.{as_bytes}
use nono_cedar_pdp.Audit.Sink.{append}
use nono_cedar_pdp.Base.{contains}
use nono_cedar_pdp.Audit.{rejected}
use nono_cedar_pdp.Sanitize.{is_control}
use nono_cedar_pdp.Sanitize.{has_control}
use nono_cedar_pdp.Sanitize.{control_escape}
use nono_cedar_pdp.Audit.{decided}
use nono_cedar_pdp.Base.{text_eq}
use nono_cedar_pdp.Audit.Fields.ReadBack.{get}
use nono_cedar_pdp.Base.{
  ◌≡◌, refl, Bool, true, false, not, ◌&&◌, none, some, List, [], ◌∷◌, ◌++◌, Text, Bytes, lit,
}
use nono_cedar_pdp.Query.{command_target, endpoint_target, PolicyQuery}
use nono_cedar_pdp.Config.{Config, default_bind}
use nono_cedar_pdp.Adapter.{RejectedContext, default_context, scrape_context}
use nono_cedar_pdp.Audit.{Line}
use nono_cedar_pdp.Audit.Fields.{fields}
use nono_cedar_pdp.Tests.Trails.{fine, fresh}
use nono_cedar_pdp.Tests.Source.{all}
use nono_cedar_pdp.Tests.Source.Json.{string, nothing, entry, reads}
use nono_cedar_pdp.Tests.Source.Trail.{
  query, proxied_query, example_shim_argv0, denied, refused, value, is_text, is_number, is_null,
  has_key, same_keys, logged, is_clean,
}

-- The bytes of a new log with two lines.
abbrev written : Line → Line → Bytes
written a b = (logged ((fine, a) ∷ (fine, b) ∷ []) fresh).file.contents

abbrev a_decided_command_line_carries_the_pid_and_rule_that_routed_it : Bool
a_decided_command_line_carries_the_pid_and_rule_that_routed_it =
    let line = denied query (lit "nope") none in
    is_number 42 (value line (lit "child_pid"))
    && (is_text (lit "status") (value line (lit "intercept_rule"))
        && (has_key (fields line) (lit "rule_label") && is_null (value line (lit "rule_label"))))

abbrev a_decided_endpoint_line_carries_the_rule_label_and_the_proxys_pid : Bool
a_decided_endpoint_line_carries_the_rule_label_and_the_proxys_pid =
    let line = denied proxied_query (lit "nope") none in
    is_text (lit "endpoint_policy.approve[GET /repos/*]") (value line (lit "rule_label"))
    && (is_number 0 (value line (lit "child_pid"))
        && (has_key (fields line) (lit "intercept_rule")
            && is_null (value line (lit "intercept_rule"))))

abbrev hostile_command : PolicyQuery
hostile_command = record query {
  target = command_target (record {
    command = lit "git";
    args = example_shim_argv0 ∷ lit "status" ∷ [];
    intercept_rule = lit "status" ++ (0x9b ∷ lit "31mDENY OVERRIDDEN");
    child_pid = 42;
  });
}

abbrev hostile_endpoint : PolicyQuery
hostile_endpoint = record proxied_query {
  target = endpoint_target (record {
    route_id = lit "github-api";
    upstream = lit "https://api.github.com";
    method = lit "GET";
    path = lit "/repos/foo/bar";
    rule_label = lit "rl" ++ (0x7f ∷ 0x9b ∷ lit "0m");
    child_pid = 0;
  });
}

abbrev del_and_c1_controls_in_the_routing_fields_never_reach_the_file_raw : Bool
del_and_c1_controls_in_the_routing_fields_never_reach_the_file_raw =
    let a = denied hostile_command (lit "nope") none in
    let b = denied hostile_endpoint (lit "nope") none in
    is_clean (written a b)
    && (is_text (lit "status\\u{009b}31mDENY OVERRIDDEN") (value a (lit "intercept_rule"))
        && is_text (lit "rl\\u{007f}\\u{009b}0m") (value b (lit "rule_label")))

abbrev hostile : PolicyQuery
hostile = record query {
  request_id = lit "r1" ++ (0x9b ∷ lit "31mDENY OVERRIDDEN");
  session_id = lit "s" ++ (0x7f ∷ lit "1");
  backend = lit "cedar" ++ (0x9b ∷ (lit "0m" ++ (0x7f ∷ [])));
}

abbrev del_and_c1_controls_in_the_identifier_fields_never_reach_the_file_raw : Bool
del_and_c1_controls_in_the_identifier_fields_never_reach_the_file_raw =
    let line = denied hostile (lit "nope") none in
    is_clean (logged ((fine, line) ∷ []) fresh).file.contents
    && (is_text (lit "r1\\u{009b}31mDENY OVERRIDDEN") (value line (lit "request_id"))
        && (is_text (lit "s\\u{007f}1") (value line (lit "session_id"))
            && is_text (lit "cedar\\u{009b}0m\\u{007f}") (value line (lit "backend"))))

abbrev del_and_c1_controls_in_the_user_agent_never_reach_the_file_raw : Bool
del_and_c1_controls_in_the_user_agent_never_reach_the_file_raw =
    let agent = lit "nono-cli/0.69.0" ++ (0x9b ∷ (lit "31mDENY" ++ (0x7f ∷ lit " OVERRIDDEN"))) in
    let escaped = lit "nono-cli/0.69.0\\u{009b}31mDENY\\u{007f} OVERRIDDEN" in
    let a = denied query (lit "nope") (some agent) in
    let b = refused default_context (lit "unsupported") (some agent) in
    is_clean (written a b)
    && (is_text escaped (value a (lit "user_agent"))
        && is_text escaped (value b (lit "user_agent")))

abbrev config : Config
config = record {
  bind = record default_bind { port = 0 };
  policy_dir = lit "/tmp";
  audit_log = lit "/tmp/decisions.jsonl";
  agents = [];
  tls = none;
}

abbrev scraped : RejectedContext
scraped =
    scrape_context
      (reads (
        some (
          entry (lit "backend") (string (lit "ced" ++ (0x9b ∷ lit "31mar"))) (
            entry (lit "request")
              (entry (lit "capability_type") (string (lit "netw" ++ (0x7f ∷ lit "ork"))) (
                entry (lit "request_id") (string (lit "n1" ++ (0x9b ∷ lit "0m")))
                  (entry (lit "session_id") (string (lit "s" ++ (0x7f ∷ lit "1"))) nothing)))
              nothing))))
      [] config

abbrev del_and_c1_controls_on_a_rejected_line_never_reach_the_file_raw : Bool
del_and_c1_controls_on_a_rejected_line_never_reach_the_file_raw =
    let line = refused scraped (lit "unsupported") none in
    is_clean (logged ((fine, line) ∷ []) fresh).file.contents
    && (is_text (lit "ced\\u{009b}31mar") (value line (lit "backend"))
        && (is_text (lit "n1\\u{009b}0m") (value line (lit "request_id"))
            && (is_text (lit "s\\u{007f}1") (value line (lit "session_id"))
                && is_text (lit "capability_type=netw\\u{007f}ork") (value line (lit "resource")))))

abbrev every_line_kind_carries_the_same_key_set_with_nulls_for_the_unknown : Bool
every_line_kind_carries_the_same_key_set_with_nulls_for_the_unknown =
    let a = denied query (lit "command") (some (lit "nono-cli/0.69.0")) in
    let b = denied proxied_query (lit "endpoint") none in
    let r = refused default_context (lit "rejected") none in
    let unknown : List Text =
      lit "child_pid" ∷ lit "intercept_rule" ∷ lit "rule_label" ∷ lit "user_agent" ∷ [] in
    is_text (lit "nono-cli/0.69.0") (value a (lit "user_agent"))
    && (all (λ key. has_key (fields r) key && is_null (value r key)) unknown
        && (same_keys a b && same_keys a r))

abbrev every_decision_line_names_its_shape : Bool
every_decision_line_names_its_shape =
    is_text (lit "decision") (value (denied query (lit "nope") none) (lit "kind"))

a_decided_command_line_carries_the_pid_and_rule_that_routed_it_passes :
    a_decided_command_line_carries_the_pid_and_rule_that_routed_it ≡ true
unfolding lit get fields text_eq decided control_escape has_control is_control has_key
a_decided_command_line_carries_the_pid_and_rule_that_routed_it_passes = refl

a_decided_endpoint_line_carries_the_rule_label_and_the_proxys_pid_passes :
    a_decided_endpoint_line_carries_the_rule_label_and_the_proxys_pid ≡ true
unfolding lit get fields text_eq decided control_escape has_control is_control has_key
a_decided_endpoint_line_carries_the_rule_label_and_the_proxys_pid_passes = refl

del_and_c1_controls_in_the_routing_fields_never_reach_the_file_raw_passes :
    del_and_c1_controls_in_the_routing_fields_never_reach_the_file_raw ≡ true
unfolding lit contains logged append as_bytes encode_char fields decided control_escape has_control
    is_control action_name resource_summary join decimal escape_all escape_char decision_name
    ends_mid_line open_log tighten_permissions buffer reattach reopen roll_back take write
    target_child_pid target_intercept_rule target_rule_label action_name_of raw_summary hex_digit
    json deny_with mentions get text_eq
del_and_c1_controls_in_the_routing_fields_never_reach_the_file_raw_passes = refl

del_and_c1_controls_in_the_identifier_fields_never_reach_the_file_raw_passes :
    del_and_c1_controls_in_the_identifier_fields_never_reach_the_file_raw ≡ true
unfolding lit contains logged append as_bytes encode_char fields decided control_escape has_control
    is_control escape_all escape_char action_name resource_summary join decimal decision_name
    ends_mid_line open_log tighten_permissions buffer reattach reopen roll_back take write
    target_child_pid target_intercept_rule target_rule_label action_name_of raw_summary hex_digit
    json deny_with mentions get text_eq
del_and_c1_controls_in_the_identifier_fields_never_reach_the_file_raw_passes = refl

del_and_c1_controls_in_the_user_agent_never_reach_the_file_raw_passes :
    del_and_c1_controls_in_the_user_agent_never_reach_the_file_raw ≡ true
unfolding lit contains logged append as_bytes encode_char fields decided control_escape has_control
    is_control action_name resource_summary join decimal escape_all escape_char decision_name
    ends_mid_line open_log tighten_permissions buffer reattach reopen roll_back take write
    target_child_pid target_intercept_rule target_rule_label action_name_of raw_summary hex_digit
    json deny_with rejected default_context mentions get text_eq
del_and_c1_controls_in_the_user_agent_never_reach_the_file_raw_passes = refl

del_and_c1_controls_on_a_rejected_line_never_reach_the_file_raw_passes :
    del_and_c1_controls_on_a_rejected_line_never_reach_the_file_raw ≡ true
unfolding member lit contains logged append as_bytes encode_char fields rejected scrape_context
    scrape_value get text_eq scrape_text control_escape has_control is_control escape_all
    escape_char default_context ends_mid_line open_log tighten_permissions buffer reattach reopen
    roll_back take write decision_name decimal agent_for lookup unknown_agent hex_digit json
    deny_with mentions
del_and_c1_controls_on_a_rejected_line_never_reach_the_file_raw_passes = refl

every_line_kind_carries_the_same_key_set_with_nulls_for_the_unknown_passes :
    every_line_kind_carries_the_same_key_set_with_nulls_for_the_unknown ≡ true
unfolding lit get fields text_eq decided control_escape has_control is_control has_key rejected
    same_keys
every_line_kind_carries_the_same_key_set_with_nulls_for_the_unknown_passes = refl

every_decision_line_names_its_shape_passes : every_decision_line_names_its_shape ≡ true
unfolding lit get fields text_eq decided
every_decision_line_names_its_shape_passes = refl
