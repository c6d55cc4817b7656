-- ===== src/Adapter/Laws.antt =====
-- What src/adapter/nono_webhook.rs takes from the wire as identity.
use nono_cedar_pdp.Base.{
  ◌≡◌, refl, ◌↔◌, inl, inr, Text, Bytes, lit, text_eq, text_eq_iff, Result, ok, map_err,
  map_err-eq_ok, bind-eq_ok, ok-injective, subst, Bool-cases,
}
use nono_cedar_pdp.Wire.{
  CommandRequest, EndpointRequest, ApprovalRequest, command, endpoint, unsupported, WebhookEnvelope,
}
use nono_cedar_pdp.Query.{CallerKind, PolicyQuery}
use nono_cedar_pdp.Config.{Config, agent_for}
use nono_cedar_pdp.Adapter.{
  malformed, proxy_identity, caller_kind, command_query, endpoint_query, query_of, parse,
}

-- Where each part of a query's identity comes from.
pub data Identity (config : Config) (envelope : WebhookEnvelope) (q : PolicyQuery) : Type 0 where
  of_command :
      (c : CommandRequest)
      → envelope.request ≡ command c
      → q.caller ≡ c.caller
      → q.session_id ≡ c.session_id
      → (q.caller_kind ≡ CallerKind.session) ↔ (c.caller ≡ lit "session")
      → q.agent ≡ agent_for config envelope.backend
      → Identity config envelope q
  of_endpoint :
      (e : EndpointRequest)
      → envelope.request ≡ endpoint e
      → q.caller ≡ lit "proxy"
      → q.session_id ≡ lit "proxy"
      → q.caller_kind ≡ CallerKind.session
      → q.agent ≡ agent_for config envelope.backend
      → Identity config envelope q

caller_kind_iff : (t : Text) → (caller_kind t ≡ CallerKind.session) ↔ (t ≡ lit "session")
unfolding caller_kind
caller_kind_iff t = elim (Bool-cases (text_eq t (lit "session"))) [
  | inl e ↦ rw (e) (λ h. (text_eq_iff t (lit "session")).0 e, λ h. refl)
  | inr e ↦ rw (e) (λ h. absurd (cc), λ h. absurd (cc ((text_eq_iff t (lit "session")).1 h)))
]

query_of-Identity :
    {E : Type 0} (config : Config) (envelope : WebhookEnvelope) (request : ApprovalRequest)
    {q : PolicyQuery}
    → envelope.request ≡ request
    → query_of {E = E} (agent_for config envelope.backend) envelope.backend request ≡ ok q
    → Identity config envelope q
unfolding query_of command_query endpoint_query proxy_identity
query_of-Identity config envelope (command c) h k =
    subst (Identity config envelope) (ok-injective k)
      (of_command c h refl refl (caller_kind_iff c.caller) refl)
query_of-Identity config envelope (endpoint e) h k =
    subst (Identity config envelope) (ok-injective k) (of_endpoint e h refl refl refl refl)
query_of-Identity config envelope unsupported h k = absurd (cc)

-- The agent of a query is the operator's for the backend, never a field of the request; a command
-- is a direct launch exactly when its caller is the text session; and an endpoint request has the
-- proxy's identity in both halves, whatever it claims.
pub parse-Identity :
    {E : Type 0} (from_slice : Bytes → Result E WebhookEnvelope) (body : Bytes) (config : Config)
    (q : PolicyQuery)
    → parse from_slice body config ≡ ok q
    → (envelope : WebhookEnvelope) × (from_slice body ≡ ok envelope) × Identity config envelope q
unfolding parse
parse-Identity {E} from_slice body config q h =
    let (envelope, e, k) =
      bind-eq_ok {A = WebhookEnvelope} (map_err malformed (from_slice body))
        (λ x. query_of (agent_for config x.backend) x.backend x.request) h in
    (
      envelope,
      map_err-eq_ok malformed (from_slice body) e,
      query_of-Identity config envelope envelope.request refl k,
    )
