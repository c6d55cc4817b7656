-- ===== src/Entities.antt =====
-- src/cedar/entities.rs: the Cedar request and the entity slice of one query.
-- A `HashMap` or `HashSet` that the source builds and hands over is the list of what it is built of.
pub mod Escape
use nono_cedar_pdp.Base.{
  ℕ, Bool, Option, none, some, List, [], ◌∷◌, ◌++◌, map, ◌==◌, if◌then◌else◌, Text, lit, join,
  length, Result, ok, err, ◌>>=◌, map_err,
}
use nono_cedar_pdp.Sanitize.{control_escape}
use nono_cedar_pdp.Query.{
  Target, CommandTarget, EndpointTarget, command_target, endpoint_target, PolicyQuery, CallerKind,
  as_str,
}
use nono_cedar_pdp.Cedar.{Cedar}

pub data BuildError : Type 0 where
  uid : Text → Text → BuildError
  entity : Text → BuildError
  context : Text → BuildError
  request : Text → BuildError

-- The `Display` that `thiserror` derives.
unfoldable pub display : BuildError → Text
display (uid u message) = lit "invalid entity uid " ++ (u ++ (lit ": " ++ message))
display (entity m) = lit "building entity: " ++ m
display (context m) = lit "building context: " ++ m
display (request m) = lit "building request: " ++ m

-- `str::replace` of one character by a text.
unfoldable pub replace : ℕ → Text → Text → Text
replace from to [] = []
replace from to (c ∷ cs) = (if c == from then to else c ∷ []) ++ replace from to cs

-- `fn escape`
unfoldable pub escape : Text → Text
unfolding replace
escape raw = replace b'"' (b'\\' ∷ b'"' ∷ []) (replace b'\\' (b'\\' ∷ b'\\' ∷ []) raw)

abbrev tail : List Text → List Text
tail [] = []
tail (x ∷ xs) = xs

-- `fn argv_tail`
unfoldable pub argv_tail : List Text → Text
argv_tail args = join (lit " ") (tail args)

-- `format!("Nono::…::\"{}\"", escape(…))`
unfoldable pub quoted_uid : Text → Text → Text
quoted_uid kind raw = lit "Nono::" ++ (kind ++ (lit "::\"" ++ (escape raw ++ lit "\"")))

module _ (c : Cedar) where
  open c use {
    Schema, EntityUid, Expr, Entity, Entities, Context, Request, uid_from_str, new_string, new_set,
    new_long, new_no_attrs, new_entity, entity_uid, from_entities, from_pairs, new_request,
  }

  -- `fn uid`
  unfoldable pub make_uid : Text → Result BuildError EntityUid
  make_uid text = map_err (λ e. uid (control_escape text) (control_escape e)) (uid_from_str text)

  -- A resource: its uid, its attributes, the action's name and the context pairs.
  unfoldable pub reason_pair : Option Text → List (Text × Expr)
  reason_pair none = []
  reason_pair (some reason) = (lit "reason", new_string reason) ∷ []

  unfoldable pub command_attrs : CommandTarget → List (Text × Expr)
  command_attrs t =
      (lit "command", new_string t.command)
      ∷ (lit "args", new_set (map new_string t.args))
      ∷ (lit "argv_tail", new_string (argv_tail t.args))
      ∷ (lit "arg_count", new_long (length t.args))
      ∷ []

  unfoldable pub command_pairs : PolicyQuery → CommandTarget → List (Text × Expr)
  command_pairs q t =
      (lit "backend", new_string q.backend)
      ∷ (lit "intercept_rule", new_string t.intercept_rule)
      ∷ (lit "caller_kind", new_string (as_str q.caller_kind))
      ∷ (lit "child_pid", new_long t.child_pid)
      ∷ (lit "session_id", new_string q.session_id)
      ∷ reason_pair q.reason

  unfoldable pub endpoint_attrs : EndpointTarget → List (Text × Expr)
  endpoint_attrs t =
      (lit "route_id", new_string t.route_id)
      ∷ (lit "upstream", new_string t.upstream)
      ∷ (lit "method", new_string t.method)
      ∷ (lit "path", new_string t.path)
      ∷ []

  unfoldable pub endpoint_pairs : PolicyQuery → EndpointTarget → List (Text × Expr)
  endpoint_pairs q t =
      (lit "backend", new_string q.backend)
      ∷ (lit "rule_label", new_string t.rule_label)
      ∷ reason_pair q.reason

  -- What the `match &q.target` yields: the action, the resource and the context pairs.
  pub record Resource : Type 0 where
    pub action : EntityUid
    pub resource_uid : EntityUid
    pub resource : Entity
    pub pairs : List (Text × Expr)

  unfoldable pub make_resource :
      Text → Text → Text → List (Text × Expr) → List (Text × Expr) → Result BuildError Resource
  make_resource kind action_id request_id attrs pairs = do
    resource_uid ← make_uid (quoted_uid kind request_id)
    resource ← map_err (λ e. entity (control_escape e)) (new_entity resource_uid attrs [])
    action ← make_uid action_id
    ok (record { action = action; resource_uid = resource_uid; resource = resource; pairs = pairs })

  unfoldable pub target_resource : PolicyQuery → Target → Result BuildError Resource
  target_resource q (command_target t) =
      make_resource (lit "Command") (lit "Nono::Action::\"launchCommand\"") q.request_id
        (command_attrs t) (command_pairs q t)
  target_resource q (endpoint_target t) =
      make_resource (lit "HttpEndpoint") (lit "Nono::Action::\"httpRequest\"") q.request_id
        (endpoint_attrs t) (endpoint_pairs q t)

  -- `build`
  unfoldable pub build : PolicyQuery → Schema → Result BuildError (Request × Entities)
  unfolding make_uid target_resource make_resource
  build q schema = do
    agent_uid ← make_uid (quoted_uid (lit "Agent") q.agent)
    let agent = new_no_attrs agent_uid []
    session_uid ← make_uid (quoted_uid (lit "Session") q.session_id)
    let session = new_no_attrs session_uid (entity_uid agent ∷ [])
    caller_uid ← make_uid (quoted_uid (lit "Caller") q.caller)
    let caller = new_no_attrs caller_uid (entity_uid session ∷ [])
    r ← target_resource q q.target
    entities ←
        map_err (λ e. entity (control_escape e))
          (from_entities (agent ∷ session ∷ caller ∷ r.resource ∷ []) schema)
    ctx ← map_err (λ e. context (control_escape e)) (from_pairs r.pairs)
    req ←
        map_err (λ e. request (control_escape e))
          (new_request caller_uid r.action r.resource_uid ctx schema)
    ok (req, entities)
