-- ===== src/Daemon/Clean.antt =====
-- What the trail of the daemon of src/server.rs and src/watcher.rs can carry of what others sent.
use nono_cedar_pdp.Base.{
  ℕ, ◌≡◌, inl, inr, false, Option, Option-cases, All, Text, Bytes, Result-cases,
}
use nono_cedar_pdp.Sanitize.{has_control}
use nono_cedar_pdp.Decision.Laws.{deny_with-printable}
use nono_cedar_pdp.Adapter.{default_context, parse}
use nono_cedar_pdp.Audit.{Line, decision_line, policy_set_line, decided, rejected}
use nono_cedar_pdp.Audit.Laws.{
  IsClean, IsCleanRecord, AllClean, decided-IsCleanRecord, rejected-IsCleanRecord,
  default-IsCleanContext, scrape_context-IsCleanContext, policy_set-printable,
}
use nono_cedar_pdp.Cedar.{Cedar}
use nono_cedar_pdp.Engine.Laws.{evaluate-printable}
use nono_cedar_pdp.Server.{Outside, AppState, max_request_bytes}
use nono_cedar_pdp.Server.Tls.{Net}
use nono_cedar_pdp.Process.{World}
use nono_cedar_pdp.Main.{Prepared}
use nono_cedar_pdp.Daemon.{Daemon, verdict, Steps}
use nono_cedar_pdp.Daemon.Trail.{Steps-All}
use nono_cedar_pdp.Daemon.Allowed.{started}

-- The fields that others fill are without a control character; the principal is quoted by `{:?}`.
abbrev pub CleanLine : Line → Type 0
CleanLine (decision_line r) = IsCleanRecord r × (has_control r.reason ≡ false)
CleanLine (policy_set_line r) = IsClean r.reason × AllClean r.files

module _ (c : Cedar) (E : Type 0) where
  verdict-CleanLine :
      (o : Outside E) (user_agent : Option Text) (to_bytes : ℕ → Option Bytes) (s : AppState c)
      → CleanLine (decision_line (verdict c E o user_agent to_bytes s).0)
  unfolding verdict rejected decided
  verdict-CleanLine o ua to_bytes s = elim (Option-cases (to_bytes max_request_bytes)) [
    | inl b ↦
        rw (verdict, b)
          (
            rejected-IsCleanRecord default_context o.ts _ ua default-IsCleanContext,
            deny_with-printable _,
          )
    | inr (body, b) ↦ elim (Result-cases (parse o.parse_envelope body s.config)) [
      | inl (e, p) ↦
          rw (verdict, b, p)
            (
              rejected-IsCleanRecord _ o.ts _ ua
                  (scrape_context-IsCleanContext o.json body s.config),
              deny_with-printable _,
            )
      | inr (q, p) ↦
          rw (verdict, b, p)
            (
              decided-IsCleanRecord o.debug o.ts q _ ua,
              evaluate-printable c o.debug o.eval_us s.engine q,
            )
    ]
  ]

  -- Whatever is sent to the daemon, and however its requests and its watch thread interleave: every
  -- line of the trail is free of control characters, be the request decided, refused or unreadable,
  -- in its request id, session, backend, action, resource, rule, label, user agent and reason, and a
  -- policy-set line in its reason and its file names.
  pub Steps-CleanLine :
      (net : Net E) (w : World c net) (p : Prepared c net) {d : Daemon c E}
      → Steps c E (started c net w p) d
      → All CleanLine d.state.audit
  Steps-CleanLine net w p s =
      Steps-All c E CleanLine verdict-CleanLine policy_set-printable net w p s
