-- ===== src/Tests/Texts.antt =====
-- Escaping, the header gate, the configuration and the adapter at concrete texts.
use nono_cedar_pdp.Base.{
  ◌≡◌, ◌≢◌, refl, ◌↔◌, true, false, none, some, [], Text, lit, text_eq, Result, ok,
}
use nono_cedar_pdp.Sanitize.{has_control, control_escape}
use nono_cedar_pdp.Sanitize.Laws.{control_escape-printable}
use nono_cedar_pdp.Wire.{WebhookEnvelope}
use nono_cedar_pdp.Config.{IpAddr, v4, Config, RawConfig, load, deserialize, is_loopback, agent_for}
use nono_cedar_pdp.Config.Laws.{load-eq_ok}
use nono_cedar_pdp.Adapter.{parse, query_of, endpoint_query, proxy_identity}
use nono_cedar_pdp.Adapter.Laws.{Identity, parse-Identity}
use nono_cedar_pdp.Tests.Toy.{config, envelope, get_query}

control_escape-printable_example : has_control (control_escape (lit "a\nb")) ≡ false
control_escape-printable_example = control_escape-printable (lit "a\nb")

abbrev raw : RawConfig
raw = record {
  bind = some (record { ip = v4 0 0 0 0; port = 8181 });
  policy_dir = lit "~/p";
  audit_log = none;
  agents = [];
  tls = none;
}

abbrev read_file : Text → Result Text Text
read_file path = ok []

abbrev read_table : Text → Result Text RawConfig
read_table text = ok raw

load-eq_ok_example : (load read_file read_table none (lit "c.toml") ≡ ok config) ↔ (
    (text : Text) × (r : RawConfig) × (read_file (lit "c.toml") ≡ ok text)
    × (read_table text ≡ ok r)
    × (deserialize none r ≡ config)
    × (is_loopback config.bind.ip ≡ true))
load-eq_ok_example = load-eq_ok read_file read_table none (lit "c.toml") config

false_ne_true : false ≢ true
false_ne_true h = cc

parse-Identity_example :
    (e : WebhookEnvelope) × (◌≡◌ {A = Result Text WebhookEnvelope} (ok envelope) (ok e))
    × Identity config e (get_query (lit "/v1"))
unfolding lit parse query_of endpoint_query proxy_identity agent_for nono_cedar_pdp.Config.lookup
    text_eq
parse-Identity_example =
    parse-Identity {E = Text} (λ body. ok envelope) [] config (get_query (lit "/v1")) refl
