-- ===== src/Codec/Serde.antt =====
-- serde_json on frames, which the crate derives and does not write: the two directions, and the
-- laws of the compact writer that the theorems on streams name.
use mango_protocol.Common.{◌≤◌, ◌≡◌, Text, Bytes, ◌∷◌, Option, Result, ok, All}
use mango_protocol.Libs.{Libs}
use mango_protocol.Wire.Frame.{Frame}

-- `serde_json::error::Category`
pub data Category : Type 0 where
  syntax eof io bad_data : Category

pub record ReadError : Type 0 where
  pub category : Category
  pub text : Text

pub record Serde (L : Libs) : Type 0 where
  -- `serde_json::to_vec(frame)`, with the text of its error
  pub to_vec : Frame L → Result Bytes Text
  -- `serde_json::from_slice::<Frame>(bytes)`
  pub from_slice : Bytes → Result (Frame L) ReadError
  -- `serde_json::from_slice::<Value>(bytes).ok()`, `Value::as_object` with `get`, and the text of
  -- a `Value::String`
  pub value_of_slice : Bytes → Option L.Value
  pub get_member : Text → L.Value → Option L.Value
  pub as_string : L.Value → Option Text

-- The compact writer escapes every control character and begins an object with a brace.
pub record IsCompact {L : Libs} (S : Serde L) : Type 0 where
  pub printable : (f : Frame L) (bytes : Bytes) → S.to_vec f ≡ ok bytes → All (λ b. 32 ≤ b) bytes
  pub braced :
      (f : Frame L) (bytes : Bytes) → S.to_vec f ≡ ok bytes → (rest : Bytes) × (bytes ≡ b'{' ∷ rest)

-- A frame that the reader gets back from what the writer wrote.
abbrev pub ReadsBack : {L : Libs} → Serde L → Frame L → Type 0
ReadsBack S f = (bytes : Bytes) → S.to_vec f ≡ ok bytes → S.from_slice bytes ≡ ok f
