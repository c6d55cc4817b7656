-- ===== src/Cedar.antt =====
-- What the daemon calls of the `cedar-policy` crate, as a parameter of everything that uses it.
-- An error of Cedar is the text that its `Display` gives.
use nono_cedar_pdp.Base.{ℕ, Bool, Option, List, Text, Result}
use nono_cedar_pdp.Decision.{Response}

pub record Cedar : Type 1 where
  pub Schema : Type 0
  pub Policy : Type 0
  pub PolicySet : Type 0
  pub EntityUid : Type 0
  pub Expr : Type 0
  pub Entity : Type 0
  pub Entities : Type 0
  pub Context : Type 0
  pub Request : Type 0
  -- `EntityUid::from_str`
  pub uid_from_str : Text → Result Text EntityUid
  -- `RestrictedExpression::{new_string, new_set, new_long}`; every long here is at least 0.
  pub new_string : Text → Expr
  pub new_set : List Expr → Expr
  pub new_long : ℕ → Expr
  -- `Entity::{new_no_attrs, new, uid}`
  pub new_no_attrs : EntityUid → List EntityUid → Entity
  pub new_entity : EntityUid → List (Text × Expr) → List EntityUid → Result Text Entity
  pub entity_uid : Entity → EntityUid
  -- `Entities::from_entities`, `Context::from_pairs`, `Request::new`
  pub from_entities : List Entity → Schema → Result Text Entities
  pub from_pairs : List (Text × Expr) → Result Text Context
  pub new_request : EntityUid → EntityUid → EntityUid → Context → Schema → Result Text Request
  -- `Authorizer::is_authorized`
  pub is_authorized : Request → PolicySet → Entities → Response
  -- `PolicySet::{new, from_str, add, policies, num_of_policies}`
  pub empty_set : PolicySet
  pub set_from_str : Text → Result Text PolicySet
  pub add : PolicySet → Policy → Result Text PolicySet
  pub policies : PolicySet → List Policy
  pub num_of_policies : PolicySet → ℕ
  -- `Policy::{id, effect, annotation("id"), new_id}`; of the effect only whether it is a permit.
  pub policy_id : Policy → Text
  pub is_permit : Policy → Bool
  pub id_annotation : Policy → Option Text
  pub new_id : Policy → Text → Policy
  -- `Validator::validate` in strict mode: whether it passed, and its errors.
  pub validation_passed : Schema → PolicySet → Bool
  pub validation_errors : Schema → PolicySet → List Text
