-- ===== src/Libs.antt =====
-- What the crate takes from code outside the repository: JSON values and their maps
-- (serde_json), and the rendering of numbers and quoted texts in messages (the `format!` macro).
-- Every definition that uses them takes the record as an instance argument.
use mango_protocol.Common.{ℕ, Bool, Text, Bytes}

pub record Libs : Type 1 where
  -- `serde_json::Value`
  pub Value : Type 0
  -- `serde_json::Map<String, Value>`
  pub Map : Type 0
  pub empty_map : Map
  pub insert_member : Text → Value → Map → Map
  pub text_value : Text → Value
  pub number_value : ℕ → Value
  pub is_object : Value → Bool
  -- `{}` of a number and `{:?}` of a text
  pub display : ℕ → Text
  pub debug : Text → Text
  -- `String::from_utf8_lossy`
  pub from_utf8_lossy : Bytes → Text
