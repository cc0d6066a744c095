-- ===== src/Codec/Limits.antt =====
-- Floors for the ceilings a caller gives: crates/mango-protocol/src/codec/limits.rs. A panic is
-- `none`.
use mango_protocol.Common.{
  ℕ, Text, ◌++◌, ltb, leb, if◌then◌else◌, Option, none, some, Result, ok, err,
}
use mango_protocol.Libs.{Libs}
use mango_protocol.Wire.Error.{lit}
use mango_protocol.Validate.Grammar.{min_announced_frame_bytes}

-- `MIN_MAX_FRAME_BYTES` and `DEFAULT_MAX_FRAME_BYTES` of codec/ndjson.rs
abbrev pub min_max_frame_bytes : ℕ
min_max_frame_bytes = min_announced_frame_bytes

abbrev pub default_max_frame_bytes : ℕ
default_max_frame_bytes = 16777216

unfoldable pub check_at_least : ℕ → ℕ → Option ℕ
check_at_least value floor = if leb floor value then some value else none

unfoldable pub check_max_frame_bytes : ℕ → Option ℕ
unfolding check_at_least
check_max_frame_bytes max_frame_bytes = check_at_least max_frame_bytes min_max_frame_bytes

module _ ⦃L : Libs⦄ where
  unfoldable pub floor_message : Text → ℕ → ℕ → Text
  floor_message name value floor =
      name ++ (lit " is " ++ (L.display value ++ (lit "; expected at least " ++ L.display floor)))

  unfoldable pub checked_at_least : Text → ℕ → ℕ → Result ℕ Text
  checked_at_least name value floor =
      if ltb value floor then err (floor_message name value floor) else ok value
