-- ===== src/Server.antt =====
-- src/server.rs: the header gate and the two handlers. A handler takes the shared state and gives
-- it back with its reply; the audit log is the list of the lines handed to `AuditLog::append`.
pub mod Replies
pub mod Laws
pub mod Gate
pub mod HealthSurface
pub mod Tls
pub mod Listen
use nono_cedar_pdp.Base.{
  ℕ, Bool, true, false, not, ◌||◌, ◌&&◌, Option, none, some, List, [], ◌∷◌, ◌++◌, ◌-◌, ◌+◌, ltb,
  leb, ◌==◌, if◌then◌else◌, Text, Bytes, lit, text_eq, Result, ok, err,
}
use nono_cedar_pdp.EndpointPath.{split, first_or}
use nono_cedar_pdp.Wire.{WebhookEnvelope, WebhookResponse}
use nono_cedar_pdp.Config.{Config}
use nono_cedar_pdp.Json.{JsonReader}
use nono_cedar_pdp.Query.{PolicyQuery}
use nono_cedar_pdp.Decision.{Decision, deny_with, to_wire}
use nono_cedar_pdp.Adapter.{
  AdaptError, deny_reason, default_context, scrape_context, parse, map_some,
}
use nono_cedar_pdp.Audit.{Line, decision_line, decided, rejected}
use nono_cedar_pdp.Cedar.{Cedar}
use nono_cedar_pdp.Loader.{LoadedPolicies}
use nono_cedar_pdp.Engine.{Engine, evaluate}

-- `char::is_whitespace`
unfoldable pub is_whitespace : ℕ → Bool
is_whitespace c =
    (leb 0x09 c && leb c 0x0d)
    || c == 0x20
    || c == 0x85
    || c == 0xa0
    || c == 0x1680
    || (leb 0x2000 c && leb c 0x200a)
    || c == 0x2028
    || c == 0x2029
    || c == 0x202f
    || c == 0x205f
    || c == 0x3000

unfoldable pub trim_start : Text → Text
trim_start [] = []
trim_start (c ∷ cs) = let rest = trim_start cs in if is_whitespace c then rest else c ∷ cs

-- A character in front of a text that is trimmed at its end.
unfoldable pub trim_onto : ℕ → Text → Text
trim_onto c [] = if is_whitespace c then [] else c ∷ []
trim_onto c (d ∷ ds) = c ∷ d ∷ ds

unfoldable pub trim_end : Text → Text
unfolding trim_onto
trim_end [] = []
trim_end (c ∷ cs) = trim_onto c (trim_end cs)

-- `str::trim`
unfoldable pub trim : Text → Text
unfolding trim_start trim_end
trim t = trim_end (trim_start t)

unfoldable pub to_lower : ℕ → ℕ
to_lower c = if leb b'A' c && leb c b'Z' then c + 32 else c

-- `str::eq_ignore_ascii_case`
unfoldable pub eq_ignore_ascii_case : Text → Text → Bool
unfolding to_lower
eq_ignore_ascii_case [] [] = true
eq_ignore_ascii_case (x ∷ xs) (y ∷ ys) = to_lower x == to_lower y && eq_ignore_ascii_case xs ys
eq_ignore_ascii_case _ _ = false

-- `value.split(';').next().unwrap_or("").trim()`
unfoldable pub media_type : Text → Text
unfolding split trim
media_type value = trim (first_or [] (split (λ c. c == b';') value))

-- `is_json_content_type`, against `NONO_CONTENT_TYPE`.
unfoldable pub is_json_content_type : Option Text → Bool
unfolding media_type eq_ignore_ascii_case
is_json_content_type none = false
is_json_content_type (some value) = eq_ignore_ascii_case (media_type value) (lit "application/json")

-- `MAX_REQUEST_BYTES`
abbrev pub max_request_bytes : ℕ
max_request_bytes = 1_048_576

-- `HeaderMap::get` of the `http` crate: the bytes of the first value under a name.
abbrev pub HeaderMap : Type 0
HeaderMap = Text → Option Bytes

-- What a handler sends back: nono's decision shape, another error, or the health report.
pub data Body : Type 0 where
  wire : WebhookResponse → Body
  error : Text → Body
  health : ℕ → ℕ → Option Text → Option (Text × Text) → Body

pub record Reply : Type 0 where
  pub status : ℕ
  pub body : Body

-- `observed`, with the lossy UTF-8 decoding of the standard library.
unfoldable pub observed : (Bytes → Text) → HeaderMap → Text → Option Text
observed lossy headers name = map_some lossy (headers name)

unfoldable pub refuse_origin : Option Text → Option Reply
refuse_origin none = none
refuse_origin (some origin) = some (record {
  status = 403;
  body = error (lit "this endpoint refuses requests carrying an Origin header");
})

-- `header_gate`
unfoldable pub header_gate : (Bytes → Text) → HeaderMap → Option Reply
unfolding refuse_origin observed
header_gate lossy headers =
    if not (is_json_content_type (observed lossy headers (lit "content-type")))
    then some (record {
      status = 415;
      body = error (lit "this endpoint requires Content-Type: application/json");
    })
    else refuse_origin (observed lossy headers (lit "origin"))

-- What a request meets of the code outside: serde's readers, the lossy decoding, the quoting of
-- `{:?}`, and the clock's answers.
pub record Outside (E : Type 0) : Type 1 where
  pub lossy : Bytes → Text
  pub debug : Text → Text
  pub parse_envelope : Bytes → Result E WebhookEnvelope
  pub json : JsonReader
  pub ts : Text
  pub eval_us : ℕ

-- `watcher::LastReload`
pub record LastReload : Type 0 where
  pub outcome : Text
  pub at : Text

abbrev ok_wire : Decision → Reply
ok_wire d = record { status = 200; body = wire (to_wire d) }

module _ (c : Cedar) where
  open c use {num_of_policies}

  pub record AppState : Type 0 where
    pub engine : Engine c
    pub config : Config
    pub audit : List Line
    pub last_reload : Option LastReload

  unfoldable pub log : Line → AppState → AppState
  log line s = record s { audit = s.audit ++ line ∷ [] }

  -- The arm of a body that could not be read or is over the limit.
  unfoldable pub unreadable : {E : Type 0} → Outside E → Option Text → AppState → AppState × Reply
  unfolding log
  unreadable o user_agent s =
      let d = deny_with (
        lit
          "approval request body was unreadable or above the 1048576-byte limit; failing closed") in
      (log (decision_line (rejected o.ts default_context d user_agent)) s, ok_wire d)

  -- The arm of a body that is no query.
  unfoldable pub refused :
      {E : Type 0} → Outside E → Option Text → Bytes → AdaptError E → AppState → AppState × Reply
  unfolding log
  refused o user_agent body e s =
      let context = scrape_context o.json body s.config in
      let d = deny_with (deny_reason e) in
      (log (decision_line (rejected o.ts context d user_agent)) s, ok_wire d)

  -- The end of `approve`, with a query.
  unfoldable pub answer :
      {E : Type 0} → Outside E → Option Text → PolicyQuery → AppState → AppState × Reply
  unfolding log
  answer o user_agent q s =
      let d = evaluate c o.debug o.eval_us s.engine q in
      (log (decision_line (decided o.debug o.ts q d user_agent)) s, ok_wire d)

  -- `approve`. The body is what `axum::body::to_bytes` yields under a limit.
  unfoldable pub approve :
      {E : Type 0} → Outside E → HeaderMap → (ℕ → Option Bytes) → AppState → AppState × Reply
  unfolding unreadable refused answer
  approve o headers to_bytes s = elim (header_gate o.lossy headers) [
    | some refusal ↦ (s, refusal)
    | none ↦
        let user_agent = observed o.lossy headers (lit "user-agent") in
        if num_of_policies s.engine.current.set == 0
        then (s, record { status = 503; body = error (lit "no policies loaded") })
        else elim (to_bytes max_request_bytes) [
          | none ↦ unreadable o user_agent s
          | some body ↦ elim (parse o.parse_envelope body s.config) [
            | err e ↦ refused o user_agent body e s
            | ok q ↦ answer o user_agent q s
          ]
        ]
  ]

  unfoldable pub report : Option LastReload → Option (Text × Text)
  report none = none
  report (some l) = some (l.outcome, l.at)

  -- `healthz`; `rfc3339` formats the load time, if the clock stands behind the epoch.
  unfoldable pub healthz : (ℕ → Option Text) → AppState → Reply
  unfolding report
  healthz rfc3339 s =
      let snapshot = s.engine.current in
      let count = num_of_policies snapshot.set in
      record {
        status = if count == 0 then 503 else 200;
        body = health snapshot.generation count (rfc3339 snapshot.loaded_at) (report s.last_reload);
      }
