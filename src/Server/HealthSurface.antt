-- ===== src/Server/HealthSurface.antt =====
-- What `GET /healthz` of src/server.rs shows.
use nono_cedar_pdp.Base.{ℕ, ◌≡◌, ◌≢◌, refl, ◌↔◌, Option, List, arith, Text, Bytes}
use nono_cedar_pdp.Config.{Config}
use nono_cedar_pdp.Audit.{Line}
use nono_cedar_pdp.Cedar.{Cedar}
use nono_cedar_pdp.Server.{AppState, healthz}

module _ (c : Cedar) where
  open c use {Schema, num_of_policies}

  -- The health check fails with status 503 exactly when no policy is loaded, and is 200 otherwise.
  pub healthz-status :
      (rfc3339 : ℕ → Option Text) (s : AppState c)
      → (((healthz c rfc3339 s).status ≡ 503) ↔ (num_of_policies s.engine.current.set ≡ 0))
        × (((healthz c rfc3339 s).status ≡ 200) ↔ (num_of_policies s.engine.current.set ≢ 0))
  unfolding healthz
  healthz-status rfc3339 s = ground arith

  -- The reply depends on the generation, the policy set, its load time and the last reload alone:
  -- any other configuration, trail, schema, directory, files and digest in the state give the
  -- same reply, so none of these is disclosed.
  pub healthz-discloses :
      (rfc3339 : ℕ → Option Text) (s : AppState c) (config : Config) (audit : List Line)
      (schema : Schema) (dir : Text) (files : List Bytes) (hash : Text)
      → healthz c rfc3339 (record s {
        config = config;
        audit = audit;
        engine = record s.engine {
          schema = schema;
          policy_dir = dir;
          current = record s.engine.current { files = files; content_hash = hash };
        };
      })
        ≡ healthz c rfc3339 s
  unfolding healthz
  healthz-discloses rfc3339 s config audit schema dir files hash = refl
