-- ===== src/Json.antt =====
-- `serde_json`'s untyped values, which src/adapter/nono_webhook.rs and src/cedar/engine.rs walk: the
-- crate is a parameter.
use nono_cedar_pdp.Base.{ℕ, ◌≡◌, ◌<◌, Option, some, List, All, Text, Bytes}

pub record JsonReader : Type 1 where
  pub Value : Type 0
  -- `serde_json::from_slice::<Value>`, with `.ok()`
  pub from_slice : Bytes → Option Value
  -- `Value::get` with a string, and `Value::as_str`
  pub get : Value → Text → Option Value
  pub as_str : Value → Option Text
  -- `Value::as_array`, and the entries of a `Value::Object` in the map's order.
  pub as_array : Value → Option (List Value)
  pub as_object : Value → Option (List (Text × Value))

-- A value is a finite tree: what it holds is smaller than itself.
pub record IsSized (json : JsonReader) : Type 0 where
  pub size : json.Value → ℕ
  pub item :
      (v : json.Value) (items : List json.Value)
      → json.as_array v ≡ some items
      → All (λ w. size w < size v) items
  pub entry :
      (v : json.Value) (entries : List (Text × json.Value))
      → json.as_object v ≡ some entries
      → All (λ e. size e.1 < size v) entries
  pub member : (v w : json.Value) (key : Text) → json.get v key ≡ some w → size w < size v
