-- ===== src/Tests/Source/Json.antt =====
-- Bodies of calls as `serde_json` reads them, for the unit tests: an object is a chain of entries.
use nono_cedar_pdp.Base.{ℕ, Option, none, some, if◌then◌else◌, Text, text_eq}
use nono_cedar_pdp.Json.{JsonReader}

pub data Json : Type 0 where
  string : Text → Json
  number : ℕ → Json
  nothing : Json
  entry : Text → Json → Json → Json

-- `Value::get`
unfoldable pub member : Json → Text → Option Json
member (string t) key = none
member (number n) key = none
member nothing key = none
member (entry k v rest) key = if text_eq k key then some v else member rest key

abbrev as_str : Json → Option Text
as_str (string t) = some t
as_str _ = none

-- A reader that meets one body, or one that is no JSON.
abbrev pub reads : Option Json → JsonReader
reads body = record {
  Value = Json;
  from_slice = λ bs. body;
  get = member;
  as_str = as_str;
  as_array = λ v. none;
  as_object = λ v. none;
}
