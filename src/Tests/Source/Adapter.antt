-- ===== src/Tests/Source/Adapter.antt =====
-- The unit tests of src/adapter/nono_webhook.rs: their bodies are written out as serde reads them.
use nono_cedar_pdp.Sanitize.{hex_digit}
use nono_cedar_pdp.Sanitize.{escape_char}
use nono_cedar_pdp.Sanitize.{escape_all}
use nono_cedar_pdp.Adapter.{default_context}
use nono_cedar_pdp.Sanitize.{is_control}
use nono_cedar_pdp.Sanitize.{control_escape}
use nono_cedar_pdp.Tests.Source.Json.{member}
use nono_cedar_pdp.Adapter.{scrape_text}
use nono_cedar_pdp.Adapter.{scrape_value}
use nono_cedar_pdp.Adapter.{proxy_identity}
use nono_cedar_pdp.Config.{unknown_agent}
use nono_cedar_pdp.Config.{lookup}
use nono_cedar_pdp.Config.{agent_for}
use nono_cedar_pdp.Base.{
  ◌≡◌, refl, Bool, true, false, not, ◌&&◌, Option, none, some, List, [], ◌∷◌, ◌++◌, ◌==◌, Text, lit,
  text_eq, Result, ok, err,
}
use nono_cedar_pdp.Sanitize.{has_control}
use nono_cedar_pdp.Query.{
  CallerKind, command_target, endpoint_target, Target, PolicyQuery, action_name,
}
use nono_cedar_pdp.Wire.{ApprovalRequest, command, endpoint, unsupported}
use nono_cedar_pdp.Config.{Config, default_bind}
use nono_cedar_pdp.Adapter.{
  AdaptError, malformed, unsupported_variant, deny_reason, RejectedContext, scrape_context, parse,
}
use nono_cedar_pdp.Tests.Source.{all, mentions}
use nono_cedar_pdp.Tests.Source.Trail.{example_shim_argv0}
use nono_cedar_pdp.Tests.Source.Json.{Json, string, number, nothing, entry, reads}

abbrev config : Config
config = record {
  bind = default_bind;
  policy_dir = lit "/tmp/p";
  audit_log = lit "/tmp/a.jsonl";
  agents = (lit "cedar", lit "claude-code") ∷ [];
  tls = none;
}

abbrev launch : Text → ApprovalRequest
launch caller = command (record {
  request_id = lit "r1";
  command = lit "git";
  args = example_shim_argv0 ∷ lit "push" ∷ lit "--force" ∷ [];
  caller = caller;
  intercept_rule = lit "push";
  reason = none;
  child_pid = 42;
  session_id = lit "s1";
})

abbrev call : Text → ApprovalRequest
call session_id = endpoint (record {
  request_id = lit "p1";
  route_id = lit "github-api";
  upstream = lit "https://api.github.com";
  method = lit "GET";
  path = lit "/repos/x";
  rule_label = lit "rl";
  reason = none;
  child_pid = 0;
  session_id = session_id;
})

-- `parse` of a body that is such an envelope, or that is none.
abbrev parsed : Text → ApprovalRequest → Result (AdaptError Text) PolicyQuery
parsed backend request =
    parse (λ body. ok (record { backend = backend; request = request })) [] config

abbrev unparsed : Result (AdaptError Text) PolicyQuery
unparsed = parse (λ body. err (lit "expected a string")) (lit "{not json") config

abbrev holds : (PolicyQuery → Bool) → Result (AdaptError Text) PolicyQuery → Bool
holds test (ok q) = test q
holds test (err e) = false

abbrev is_session : CallerKind → Bool
is_session CallerKind.session = true
is_session CallerKind.command = false

abbrev same_texts : List Text → List Text → Bool
same_texts [] [] = true
same_texts (s ∷ ss) (t ∷ ts) = text_eq s t && same_texts ss ts
same_texts _ _ = false

abbrev is_push : Target → Bool
is_push (command_target t) =
    text_eq t.command (lit "git")
    && (same_texts t.args (example_shim_argv0 ∷ lit "push" ∷ lit "--force" ∷ [])
        && (text_eq t.intercept_rule (lit "push") && t.child_pid == 42))
is_push (endpoint_target t) = false

abbrev maps_command_request : Bool
maps_command_request =
    holds
      (λ q.
        text_eq q.agent (lit "claude-code")
        && (text_eq q.session_id (lit "s1")
            && (text_eq q.caller (lit "session")
                && (is_session q.caller_kind
                    && (text_eq (action_name q) (lit "launchCommand") && is_push q.target)))))
      (parsed (lit "cedar") (launch (lit "session")))

abbrev derives_command_caller_kind_for_chained_launch : Bool
derives_command_caller_kind_for_chained_launch =
    holds (λ q. text_eq q.caller (lit "npm") && not (is_session q.caller_kind))
      (parsed (lit "cedar") (launch (lit "npm")))

abbrev unmapped_backend_falls_back_to_unknown_agent : Bool
unmapped_backend_falls_back_to_unknown_agent =
    holds (λ q. text_eq q.agent (lit "unknown")) (parsed (lit "rogue") (launch (lit "session")))

abbrev is_endpoint : Target → Bool
is_endpoint (command_target t) = false
is_endpoint (endpoint_target t) = true

abbrev maps_endpoint_request_with_proxy_identity : Bool
maps_endpoint_request_with_proxy_identity =
    holds
      (λ q.
        text_eq q.caller (lit "proxy")
        && (text_eq q.session_id (lit "proxy")
            && (text_eq (action_name q) (lit "httpRequest") && is_endpoint q.target)))
      (parsed (lit "cedar") (call (lit "proxy")))

abbrev endpoint_session_identity_is_pinned_not_taken_from_the_wire : Bool
endpoint_session_identity_is_pinned_not_taken_from_the_wire =
    holds (λ q. text_eq q.session_id (lit "proxy") && text_eq q.caller (lit "proxy"))
      (parsed (lit "cedar") (call (lit "s1")))

abbrev session_caller_kind_requires_an_exact_label_match : Bool
session_caller_kind_requires_an_exact_label_match =
    all
      (λ label.
        holds (λ q. text_eq q.caller label && not (is_session q.caller_kind))
          (parsed (lit "cedar") (launch label)))
      (lit "session " ∷ lit " session" ∷ lit "Session" ∷ lit "sessions" ∷ lit "ses" ∷ [])

abbrev is_unsupported : Result (AdaptError Text) PolicyQuery → Bool
is_unsupported (err unsupported_variant) =
    mentions (lit "unsupported") (deny_reason {E = Text} AdaptError.unsupported_variant)
is_unsupported _ = false

abbrev unsupported_variant_is_an_error_with_a_deny_reason : Bool
unsupported_variant_is_an_error_with_a_deny_reason =
    is_unsupported (parsed (lit "cedar") unsupported)

abbrev is_malformed : Result (AdaptError Text) PolicyQuery → Bool
is_malformed (err (malformed e)) = mentions (lit "malformed") (deny_reason (AdaptError.malformed e))
is_malformed _ = false

abbrev malformed_body_is_an_error_with_a_deny_reason : Bool
malformed_body_is_an_error_with_a_deny_reason = is_malformed unparsed

abbrev is_some : Text → Option Text → Bool
is_some t (some s) = text_eq s t
is_some t none = false

abbrev is_none : Option Text → Bool
is_none none = true
is_none (some s) = false

abbrev is_default : RejectedContext → Bool
is_default c =
    is_none c.backend
    && (is_none c.agent
        && (is_none c.capability_type && (is_none c.request_id && is_none c.session_id)))

abbrev scraped : Option Json → RejectedContext
scraped body = scrape_context (reads body) [] config

-- `null` is no string, as a number is none.
abbrev scrapes_the_context_of_a_refused_request : Bool
scrapes_the_context_of_a_refused_request =
    let request = entry (lit "capability_type") (string (lit "capability")) (
      entry (lit "request_id") (string (lit "cap-1")) (
        entry (lit "path") (string (lit "/Users/agent/.ssh/id_ed25519")) (
          entry (lit "access") (string (lit "read")) (
            entry (lit "child_pid") (number 7)
              (entry (lit "session_id") (string (lit "s1")) nothing))))) in
    let context = scraped (
      some
        (entry (lit "backend") (string (lit "cedar")) (entry (lit "request") request nothing))) in
    is_some (lit "cedar") context.backend
    && (is_some (lit "claude-code") context.agent
        && (is_some (lit "capability") context.capability_type
            && (is_some (lit "cap-1") context.request_id && is_some (lit "s1") context.session_id)))

abbrev scraping_a_body_that_is_not_json_yields_an_empty_context : Bool
scraping_a_body_that_is_not_json_yields_an_empty_context =
    is_default (scraped none)
    && is_default (
        scraped (
          some (
            entry (lit "backend") (number 42)
              (entry (lit "request") (string (lit "nope")) nothing))))

abbrev is_escaped : Option Text → Bool
is_escaped none = false
is_escaped (some t) = not (has_control t) && mentions (lit "\\u{001b}") t

abbrev scraped_context_is_control_escaped : Bool
scraped_context_is_control_escaped =
    let request_id = lit "cap" ++ (0x1b ∷ (lit "[2K" ++ (0x0d ∷ lit "INFO forged allow=true"))) in
    let request = entry (lit "capability_type") (string (lit "capability")) (
      entry (lit "request_id") (string request_id)
        (entry (lit "session_id") (string (lit "s1")) nothing)) in
    let context = scraped (
      some
        (entry (lit "backend") (string (lit "cedar")) (entry (lit "request") request nothing))) in
    is_escaped context.request_id

abbrev an_unmapped_backend_scrapes_to_the_unknown_agent : Bool
an_unmapped_backend_scrapes_to_the_unknown_agent =
    let request = entry (lit "capability_type") (string (lit "network")) nothing in
    let context = scraped (
      some
        (entry (lit "backend") (string (lit "rogue")) (entry (lit "request") request nothing))) in
    is_some (lit "rogue") context.backend && is_some (lit "unknown") context.agent

maps_command_request_passes : maps_command_request ≡ true
unfolding lit parse text_eq agent_for lookup action_name
maps_command_request_passes = refl

derives_command_caller_kind_for_chained_launch_passes :
    derives_command_caller_kind_for_chained_launch ≡ true
unfolding lit parse text_eq
derives_command_caller_kind_for_chained_launch_passes = refl

unmapped_backend_falls_back_to_unknown_agent_passes :
    unmapped_backend_falls_back_to_unknown_agent ≡ true
unfolding lit parse text_eq agent_for lookup unknown_agent
unmapped_backend_falls_back_to_unknown_agent_passes = refl

maps_endpoint_request_with_proxy_identity_passes : maps_endpoint_request_with_proxy_identity ≡ true
unfolding lit parse text_eq proxy_identity action_name
maps_endpoint_request_with_proxy_identity_passes = refl

endpoint_session_identity_is_pinned_not_taken_from_the_wire_passes :
    endpoint_session_identity_is_pinned_not_taken_from_the_wire ≡ true
unfolding lit parse text_eq proxy_identity
endpoint_session_identity_is_pinned_not_taken_from_the_wire_passes = refl

session_caller_kind_requires_an_exact_label_match_passes :
    session_caller_kind_requires_an_exact_label_match ≡ true
unfolding lit parse text_eq
session_caller_kind_requires_an_exact_label_match_passes = refl

unsupported_variant_is_an_error_with_a_deny_reason_passes :
    unsupported_variant_is_an_error_with_a_deny_reason ≡ true
unfolding lit parse mentions deny_reason
unsupported_variant_is_an_error_with_a_deny_reason_passes = refl

malformed_body_is_an_error_with_a_deny_reason_passes :
    malformed_body_is_an_error_with_a_deny_reason ≡ true
unfolding lit parse mentions deny_reason
malformed_body_is_an_error_with_a_deny_reason_passes = refl

scrapes_the_context_of_a_refused_request_passes : scrapes_the_context_of_a_refused_request ≡ true
unfolding lit scrape_context scrape_value scrape_text member text_eq control_escape has_control
    is_control agent_for lookup
scrapes_the_context_of_a_refused_request_passes = refl

scraping_a_body_that_is_not_json_yields_an_empty_context_passes :
    scraping_a_body_that_is_not_json_yields_an_empty_context ≡ true
unfolding lit scrape_context default_context scrape_value scrape_text member text_eq
scraping_a_body_that_is_not_json_yields_an_empty_context_passes = refl

scraped_context_is_control_escaped_passes : scraped_context_is_control_escaped ≡ true
unfolding lit scrape_context scrape_value member text_eq scrape_text has_control control_escape
    is_control escape_all escape_char hex_digit mentions
scraped_context_is_control_escaped_passes = refl

an_unmapped_backend_scrapes_to_the_unknown_agent_passes :
    an_unmapped_backend_scrapes_to_the_unknown_agent ≡ true
unfolding lit scrape_context scrape_value scrape_text member text_eq control_escape has_control
    is_control agent_for lookup unknown_agent
an_unmapped_backend_scrapes_to_the_unknown_agent_passes = refl
