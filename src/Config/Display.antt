-- ===== src/Config/Display.antt =====
-- The `Display` of the error of src/config.rs. What the system's and the reader's errors and an
-- address show of themselves are parameters.
use nono_cedar_pdp.Base.{[], ◌∷◌, Text, lit, concat}
use nono_cedar_pdp.Config.{SocketAddr, ConfigError, read, parse, non_loopback_bind}

module _ {E F : Type 0} (show : E → Text) (show_toml : F → Text) (display : SocketAddr → Text) where
  unfoldable pub config_text : ConfigError E F → Text
  config_text (read path source) =
      concat (lit "reading config " ∷ path ∷ lit ": " ∷ show source ∷ [])
  config_text (parse e) = concat (lit "parsing config: " ∷ show_toml e ∷ [])
  config_text (non_loopback_bind bind) = concat (
      lit "bind = \""
      ∷ display bind
      ∷ lit
          "\" is not a loopback address — nono sends no credential and cannot authenticate the decider, so an unauthenticated PDP must not be reachable from other hosts; use 127.0.0.1 or [::1]"
      ∷ [])
