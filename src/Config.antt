-- ===== src/Config.antt =====
-- src/config.rs: the operator's configuration. The TOML reader is a parameter that yields the
-- table's values before `de_path` and the defaults; the environment's HOME and the file system
-- are parameters too. A path is its text.
pub mod Display
pub mod Laws
use nono_cedar_pdp.Base.{
  ℕ, Bool, true, false, not, ◌||◌, ◌&&◌, Option, none, some, List, [], ◌∷◌, ◌++◌, ◌==◌,
  if◌then◌else◌, Text, lit, text_eq, Result, ok, err, ◌>>=◌, map_err,
}

-- `UNKNOWN_AGENT`
unfoldable pub unknown_agent : Text
unknown_agent = lit "unknown"

-- `std::net::IpAddr`: four octets, or the 128 bits as one number.
pub data IpAddr : Type 0 where
  v4 : ℕ → ℕ → ℕ → ℕ → IpAddr
  v6 : ℕ → IpAddr

pub record SocketAddr : Type 0 where
  pub ip : IpAddr
  pub port : ℕ

-- `IpAddr::is_loopback`: 127.0.0.0/8, or ::1.
unfoldable pub is_loopback : IpAddr → Bool
is_loopback (v4 a b c d) = a == 127
is_loopback (v6 n) = n == 1

pub record Tls : Type 0 where
  pub cert : Text
  pub key : Text

pub record Config : Type 0 where
  pub bind : SocketAddr
  pub policy_dir : Text
  pub audit_log : Text
  pub agents : List (Text × Text)
  pub tls : Option Tls

-- What the TOML reader yields for a `Config` table with no unknown key.
pub record RawConfig : Type 0 where
  pub bind : Option SocketAddr
  pub policy_dir : Text
  pub audit_log : Option Text
  pub agents : List (Text × Text)
  pub tls : Option Tls

pub data ConfigError (E F : Type 0) : Type 0 where
  read : Text → E → ConfigError E F
  parse : F → ConfigError E F
  non_loopback_bind : SocketAddr → ConfigError E F

unfoldable pub default_bind : SocketAddr
default_bind = record { ip = v4 127 0 0 1; port = 8181 }

-- `str::strip_prefix`
unfoldable pub strip_prefix : Text → Text → Option Text
strip_prefix [] t = some t
strip_prefix (p ∷ ps) [] = none
strip_prefix (p ∷ ps) (c ∷ cs) = if p == c then strip_prefix ps cs else none

unfoldable pub ends_with_slash : Text → Bool
ends_with_slash [] = false
ends_with_slash (c ∷ []) = c == b'/'
ends_with_slash (c ∷ d ∷ cs) = ends_with_slash (d ∷ cs)

abbrev is_empty : Text → Bool
is_empty [] = true
is_empty _ = false

-- `Path::join`: an absolute path replaces what it is joined to.
unfoldable pub join_path : Text → Text → Text
join_path base [] = if is_empty base || ends_with_slash base then base else base ++ (b'/' ∷ [])
join_path base (c ∷ cs) =
    if c == b'/'
    then c ∷ cs
    else if is_empty base || ends_with_slash base
    then base ++ (c ∷ cs)
    else base ++ (b'/' ∷ c ∷ cs)

-- `expand_tilde`, with the value of HOME.
unfoldable pub expand_tilde : Option Text → Text → Text
expand_tilde home raw = elim (strip_prefix (b'~' ∷ b'/' ∷ []) raw) [
  | some rest ↦ elim home [ some h ↦ join_path h rest | none ↦ raw ]
  | none ↦ raw
]

unfoldable pub default_audit_log : Option Text → Text
default_audit_log home = expand_tilde home (lit "~/.local/state/nono-cedar-pdp/decisions.jsonl")

abbrev pub or_else {ℓ} : {A : Type ℓ} → Option A → A → A
or_else none d = d
or_else (some a) d = a

unfoldable pub expand_tls : Option Text → Option Tls → Option Tls
expand_tls home none = none
expand_tls home (some t) =
    some (record { cert = expand_tilde home t.cert; key = expand_tilde home t.key })

unfoldable pub expand_audit_log : Option Text → Option Text → Text
expand_audit_log home none = default_audit_log home
expand_audit_log home (some p) = expand_tilde home p

-- The derived `Deserialize`: the defaults, and `de_path` on each path.
unfoldable pub deserialize : Option Text → RawConfig → Config
unfolding expand_tls expand_audit_log
deserialize home raw = record {
  bind = or_else raw.bind default_bind;
  policy_dir = expand_tilde home raw.policy_dir;
  audit_log = expand_audit_log home raw.audit_log;
  agents = raw.agents;
  tls = expand_tls home raw.tls;
}

-- The guard on the bind address.
unfoldable pub check_bind : {E F : Type 0} → Config → Result (ConfigError E F) Config
check_bind config =
    if not (is_loopback config.bind.ip) then err (non_loopback_bind config.bind) else ok config

-- `Config::load`
unfoldable pub load :
    {E F : Type 0}
    → (Text → Result E Text)
    → (Text → Result F RawConfig)
    → Option Text
    → Text
    → Result (ConfigError E F) Config
unfolding check_bind
load read_to_string from_str home path = do
  text ← map_err (read path) (read_to_string path)
  raw ← map_err parse (from_str text)
  check_bind (deserialize home raw)

-- `BTreeMap::get`
unfoldable pub lookup : Text → List (Text × Text) → Option Text
lookup k [] = none
lookup k ((j, v) ∷ rest) = if text_eq j k then some v else lookup k rest

-- `Config::agent_for`
unfoldable pub agent_for : Config → Text → Text
agent_for config backend = or_else (lookup backend config.agents) unknown_agent
