-- ===== src/Tests/Source/Config.antt =====
-- The unit tests of src/config.rs whose tables have no unknown and no missing key: what the TOML
-- reader yields for their files is written out.
use nono_cedar_pdp.Config.{ends_with_slash}
use nono_cedar_pdp.Config.{join_path}
use nono_cedar_pdp.Config.{strip_prefix}
use nono_cedar_pdp.Config.{expand_tilde}
use nono_cedar_pdp.Config.{lookup}
use nono_cedar_pdp.Config.{default_bind}
use nono_cedar_pdp.Config.{deserialize}
use nono_cedar_pdp.Base.{
  ◌≡◌, refl, ℕ, Bool, true, false, not, ◌&&◌, Option, none, some, List, [], ◌∷◌, ◌==◌,
  if◌then◌else◌, Text, lit, text_eq, concat, decimal, contains, Result, ok, err,
}
use nono_cedar_pdp.Config.{
  IpAddr, v4, v6, SocketAddr, is_loopback, Tls, Config, RawConfig, ConfigError, non_loopback_bind,
  load, agent_for, unknown_agent,
}
use nono_cedar_pdp.Config.Display.{config_text}
use nono_cedar_pdp.Tests.Source.{all, begins, mentions}

-- `Display` of an address, where a v6 address has nothing in front of its last 16 bits.
unfoldable shown_ip : IpAddr → Text
shown_ip (v4 a b c d) =
    concat (decimal a ∷ lit "." ∷ decimal b ∷ lit "." ∷ decimal c ∷ lit "." ∷ decimal d ∷ [])
shown_ip (v6 n) = if n == 0 then lit "[::]" else concat (lit "[::" ∷ decimal n ∷ lit "]" ∷ [])

abbrev shown : SocketAddr → Text
shown address = concat (shown_ip address.ip ∷ lit ":" ∷ decimal address.port ∷ [])

-- `Config::load` of a file whose table this is, with a home directory.
abbrev loaded : RawConfig → Result (ConfigError Text Text) Config
loaded raw =
    load (λ path. ok []) (λ text. ok raw) (some (lit "/home/user")) (lit "/tmp/config.toml")

abbrev minimal : RawConfig
minimal = record {
  bind = none;
  policy_dir = lit "/tmp/policies";
  audit_log = none;
  agents = [];
  tls = none;
}

-- `unwrap` of a configuration, and a test on it.
abbrev holds : (Config → Bool) → Result (ConfigError Text Text) Config → Bool
holds test (ok c) = test c
holds test (err e) = false

abbrev is_none : {A : Type 0} → Option A → Bool
is_none none = true
is_none (some a) = false

abbrev is_empty : {A : Type 0} → List A → Bool
is_empty [] = true
is_empty (x ∷ xs) = false

abbrev loads_minimal_config_with_defaults : Bool
loads_minimal_config_with_defaults =
    holds
      (λ c.
        text_eq (shown c.bind) (lit "127.0.0.1:8181")
        && (text_eq c.policy_dir (lit "/tmp/policies") && (is_empty c.agents && is_none c.tls)))
      (loaded minimal)

abbrev maps_backend_name_to_agent_and_falls_back : Bool
maps_backend_name_to_agent_and_falls_back =
    holds
      (λ c.
        text_eq (agent_for c (lit "cedar")) (lit "claude-code")
        && text_eq (agent_for c (lit "something-else")) unknown_agent)
      (loaded (record minimal { agents = (lit "cedar", lit "claude-code") ∷ [] }))

abbrev bound : SocketAddr → Result (ConfigError Text Text) Config
bound bind = loaded (record minimal { bind = some bind; policy_dir = lit "/tmp/p" })

-- `matches!(err, ConfigError::NonLoopbackBind { .. })`, and its text.
abbrev is_refused : Text → Result (ConfigError Text Text) Config → Bool
is_refused bind (err (non_loopback_bind b)) =
    let text = config_text (λ e. e) (λ e. e) shown (ConfigError.non_loopback_bind b) in
    mentions (lit "loopback") text && mentions bind text
is_refused bind _ = false

abbrev address : IpAddr → ℕ → SocketAddr
address ip port = record { ip = ip; port = port }

abbrev rejects_a_non_loopback_bind : Bool
rejects_a_non_loopback_bind =
    is_refused (lit "0.0.0.0:18182") (bound (address (v4 0 0 0 0) 18182))
    && (is_refused (lit "192.0.2.1:8181") (bound (address (v4 192 0 2 1) 8181))
        && is_refused (lit "[::]:8181") (bound (address (v6 0) 8181)))

abbrev accepts_loopback_binds : Bool
accepts_loopback_binds =
    all (λ bind. holds (λ c. is_loopback c.bind.ip) (bound bind))
      (address (v4 127 0 0 1) 8181 ∷ address (v4 127 0 0 2) 9000 ∷ address (v6 1) 8181 ∷ [])

-- `is_absolute`, and no `~` left.
abbrev is_expanded : Text → Bool
is_expanded path = begins (lit "/") path && not (contains b'~' path)

abbrev expands_tilde_in_paths : Bool
expands_tilde_in_paths =
    holds (λ c. is_expanded c.policy_dir)
      (loaded (record minimal { policy_dir = lit "~/policies" }))

abbrev has_expanded_tls : Option Tls → Bool
has_expanded_tls none = false
has_expanded_tls (some tls) = is_expanded tls.cert && is_expanded tls.key

abbrev expands_tilde_in_tls_paths : Bool
expands_tilde_in_tls_paths =
    holds (λ c. has_expanded_tls c.tls)
      (loaded (record minimal {
        policy_dir = lit "/tmp/p";
        tls = some (record {
          cert = lit "~/.config/nono-cedar-pdp/tls/cert.pem";
          key = lit "~/.config/nono-cedar-pdp/tls/key.pem";
        });
      }))

loads_minimal_config_with_defaults_passes : loads_minimal_config_with_defaults ≡ true
unfolding lit load is_loopback deserialize default_bind text_eq shown_ip decimal expand_tilde
    strip_prefix
loads_minimal_config_with_defaults_passes = refl

maps_backend_name_to_agent_and_falls_back_passes : maps_backend_name_to_agent_and_falls_back ≡ true
unfolding lit load is_loopback deserialize default_bind text_eq agent_for lookup unknown_agent
maps_backend_name_to_agent_and_falls_back_passes = refl

rejects_a_non_loopback_bind_passes : rejects_a_non_loopback_bind ≡ true
unfolding lit load is_loopback deserialize mentions config_text shown_ip decimal
rejects_a_non_loopback_bind_passes = refl

accepts_loopback_binds_passes : accepts_loopback_binds ≡ true
unfolding lit load is_loopback deserialize
accepts_loopback_binds_passes = refl

expands_tilde_in_paths_passes : expands_tilde_in_paths ≡ true
unfolding lit load is_loopback deserialize default_bind begins expand_tilde strip_prefix join_path
    ends_with_slash contains
expands_tilde_in_paths_passes = refl

expands_tilde_in_tls_paths_passes : expands_tilde_in_tls_paths ≡ true
unfolding lit load is_loopback deserialize default_bind begins expand_tilde strip_prefix join_path
    ends_with_slash contains
expands_tilde_in_tls_paths_passes = refl
