-- ===== src/Config/Laws.antt =====
-- What src/config.rs accepts for a configuration, and the agent it gives a backend.
use nono_cedar_pdp.Base.{
  err_ne, ◌≡◌, ◌≢◌, lit, refl, sym, ap, ◌∙◌, ◌↔◌, inl, inr, true, false, Bool-cases, Option, none,
  List, [], ◌∷◌, All, Text, text_eq, text_eq_iff, Result, ok, err, map_err, map_err-eq_ok,
  bind-eq_ok, ok-injective,
}
use nono_cedar_pdp.Config.{
  unknown_agent, is_loopback, Config, RawConfig, ConfigError, non_loopback_bind, deserialize,
  check_bind, load, lookup, agent_for, or_else,
}

check_bind_loopback :
    {E F : Type 0} (x : Config) → is_loopback x.bind.ip ≡ true → check_bind {E = E} {F = F} x ≡ ok x
unfolding check_bind
check_bind_loopback x e = rw (e) refl

check_bind_refused :
    {E F : Type 0} (x : Config)
    → is_loopback x.bind.ip ≡ false
    → check_bind {E = E} {F = F} x ≡ err (non_loopback_bind x.bind)
unfolding check_bind
check_bind_refused x e = rw (e) refl

check_bind-eq_ok :
    {E F : Type 0} (x : Config) {config : Config}
    → check_bind {E = E} {F = F} x ≡ ok config
    → (x ≡ config) × (is_loopback config.bind.ip ≡ true)
unfolding check_bind
check_bind-eq_ok {E} {F} x h = elim (Bool-cases (is_loopback x.bind.ip)) [
  | inl e ↦
      let q = sym (check_bind_loopback {E = E} {F = F} x e) ∙ h in
      let same = ok-injective q in (same, ap (λ c. is_loopback c.bind.ip) (sym same) ∙ e)
  | inr e ↦ absurd (err_ne (sym (check_bind_refused {E = E} {F = F} x e) ∙ h))
]

-- A configuration is loaded exactly when the file is read, its table is read, and the address that
-- it, or else the default, binds is a loopback one; it is then the table with tildes expanded.
pub load-eq_ok :
    {E F : Type 0} (read_to_string : Text → Result E Text) (from_str : Text → Result F RawConfig)
    (home : Option Text) (path : Text) (config : Config)
    → (load read_to_string from_str home path ≡ ok config) ↔ (
        (text : Text) × (raw : RawConfig) × (read_to_string path ≡ ok text)
        × (from_str text ≡ ok raw)
        × (deserialize home raw ≡ config)
        × (is_loopback config.bind.ip ≡ true))
unfolding load
load-eq_ok {E} {F} read_to_string from_str home path config = (
  λ h.
      let (text, t, h1) =
        bind-eq_ok {A = Text} (map_err (ConfigError.read path) (read_to_string path)) _ h in
      let (raw, r, h2) =
        bind-eq_ok {A = RawConfig} (map_err ConfigError.parse (from_str text)) _ h1 in
      let (d, l) = check_bind-eq_ok (deserialize home raw) h2 in
      (
        text,
        raw,
        map_err-eq_ok (ConfigError.read path) (read_to_string path) t,
        map_err-eq_ok ConfigError.parse (from_str text) r,
        d,
        l,
      ),
  λ (text, raw, t, r, d, l).
      rw (t, r)
        (check_bind_loopback (deserialize home raw) (ap (λ c. is_loopback c.bind.ip) d ∙ l)
          ∙ ap ok d),
)

-- The table names the backend nowhere.
abbrev pub IsUnmapped : Text → List (Text × Text) → Type 0
IsUnmapped backend agents = All (λ e. e.0 ≢ backend) agents

lookup-IsUnmapped :
    (backend : Text) (agents : List (Text × Text))
    → (lookup backend agents ≡ none) ↔ IsUnmapped backend agents
unfolding lookup
lookup-IsUnmapped backend [] = (λ h. tt, λ h. refl)
lookup-IsUnmapped backend ((j, v) ∷ rest) = elim (Bool-cases (text_eq j backend)) [
  | inl e ↦ rw (e) (λ h. absurd (cc), λ h. absurd (h.0 ((text_eq_iff j backend).0 e)))
  | inr e ↦ rw (e) (
    λ h. (λ q. absurd (cc ((text_eq_iff j backend).1 q)), (lookup-IsUnmapped backend rest).0 h),
    λ h. (lookup-IsUnmapped backend rest).1 h.1,
  )
]

-- A backend that the table of agents does not name is the unknown agent, which the shipped baseline
-- denies by that name.
pub agent_for-IsUnmapped :
    (config : Config) (backend : Text)
    → IsUnmapped backend config.agents
    → agent_for config backend ≡ lit "unknown"
unfolding agent_for unknown_agent
agent_for-IsUnmapped config backend h =
    ap (λ o. or_else o unknown_agent) ((lookup-IsUnmapped backend config.agents).1 h)
