-- ===== src/Codec/Ndjson.antt =====
-- One frame as one NDJSON record: the functions of crates/mango-protocol/src/codec/ndjson.rs.
pub mod RoundTrip
use mango_protocol.Common.{
  ℕ, Text, Bytes, List, [], ◌∷◌, ◌++◌, Bool, ◌||◌, ◌&&◌, ltb, leb, ◌==◌, if◌then◌else◌, length,
  take, all, Option, none, some, Result, ok, err, ◌>>=◌, ◌>>◌, map_err,
}
use mango_protocol.Libs.{Libs}
use mango_protocol.Wire.Error.{
  lit, CodecError, CodecErrorKind, invalid_json, schema, too_large, codec_error, with_frame_type,
  is_schema,
}
use mango_protocol.Wire.Frame.{Frame, type_name}
use mango_protocol.Validate.Checks.{validate, validation_error_text}
use mango_protocol.Codec.Limits.{min_max_frame_bytes, checked_at_least}
use mango_protocol.Codec.Serde.{Serde, Category, syntax, eof, io, bad_data, ReadError}

abbrev pub preview_chars : ℕ
preview_chars = 120

-- Drops one `\r` at the end.
unfoldable pub strip_carriage_return : Bytes → Bytes
strip_carriage_return [] = []
strip_carriage_return (b ∷ []) = if b == 13 then [] else b ∷ []
strip_carriage_return (b ∷ c ∷ line) = b ∷ strip_carriage_return (c ∷ line)

-- `u8::is_ascii_whitespace`
abbrev pub is_ascii_whitespace : ℕ → Bool
is_ascii_whitespace b = b == 32 || b == 9 || b == 10 || b == 12 || b == 13

unfoldable pub is_blank : Bytes → Bool
is_blank line = all is_ascii_whitespace line

unfoldable pub kind_of : Category → CodecErrorKind
kind_of syntax = invalid_json
kind_of eof = invalid_json
kind_of io = invalid_json
kind_of bad_data = schema

module _ ⦃L : Libs⦄ where
  unfoldable pub preview : Bytes → Text
  preview bytes =
      let text = L.from_utf8_lossy bytes in
      if leb (length text) preview_chars
      then L.debug text
      else L.debug (take preview_chars text)
        ++ (lit "… (" ++ (L.display (length bytes) ++ lit " bytes)"))

  unfoldable pub too_large_error : ℕ → ℕ → CodecError
  too_large_error length max_frame_bytes = codec_error too_large (
      lit "received a line of "
      ++ (L.display length ++ (lit " bytes, expected at most " ++ L.display max_frame_bytes)))

  unfoldable pub check_ceiling : ℕ → Result ℕ CodecError
  unfolding checked_at_least
  check_ceiling max_frame_bytes =
      map_err (λ message. codec_error schema message)
        (checked_at_least (lit "max_frame_bytes") max_frame_bytes min_max_frame_bytes)

  unfoldable pub blank_refusal : Bytes → CodecError
  blank_refusal line = codec_error schema (
      lit "received a blank line of "
      ++ (L.display (length line) ++ lit " bytes, expected one JSON object with a type member"))

module _ ⦃L : Libs⦄ ⦃S : Serde L⦄ where
  -- The `"type"` member of a line that parses as a JSON object, if it is a string.
  unfoldable pub frame_type_of : Bytes → Option Text
  frame_type_of line = elim (S.value_of_slice line) [
    | none ↦ none
    | some value ↦ elim (S.get_member (lit "type") value) [
      | none ↦ none
      | some member ↦ S.as_string member
    ]
  ]

  unfoldable pub encode_frame_bytes : Frame L → ℕ → Result Bytes CodecError
  unfolding check_ceiling
  encode_frame_bytes frame max_frame_bytes = do
    ceiling ← check_ceiling max_frame_bytes
    map_err (λ error. codec_error schema (validation_error_text error)) (validate frame)
    bytes ←
        map_err
          (λ error. codec_error schema (
            lit "received a "
            ++ (type_name frame ++ (lit " frame that would not serialise: " ++ error))))
          (S.to_vec frame)
    if ltb ceiling (length bytes) then err (too_large_error (length bytes) ceiling) else ok bytes

  unfoldable pub encode_line : Frame L → ℕ → Result Bytes CodecError
  encode_line frame max_frame_bytes = do
    line ← encode_frame_bytes frame max_frame_bytes
    ok (line ++ 10 ∷ [])

  -- The refusal of a line that serde could not read, with the frame type it names.
  unfoldable pub read_refusal : Bytes → ReadError → CodecError
  unfolding kind_of is_schema
  read_refusal line error =
      let kind = kind_of error.category in
      let refusal = codec_error kind (
        lit "received "
        ++ (preview line ++ (lit ", expected one Mango Protocol frame: " ++ error.text))) in
      elim (frame_type_of line) [
        | none ↦ refusal
        | some frame_type ↦ if is_schema kind then with_frame_type refusal frame_type else refusal
      ]

  -- What `decode_line` does with a line within the ceiling that is not blank.
  unfoldable pub read_frame : Bytes → Result (Frame L) CodecError
  read_frame line = do
    frame ← map_err (read_refusal line) (S.from_slice line)
    map_err
        (λ error.
          with_frame_type (codec_error schema (validation_error_text error)) (type_name frame))
        (validate frame)
    ok frame

  unfoldable pub decode_line : Bytes → ℕ → Result (Frame L) CodecError
  unfolding check_ceiling
  decode_line bytes max_frame_bytes = do
    ceiling ← check_ceiling max_frame_bytes
    let line = strip_carriage_return bytes
    if ltb ceiling (length line)
        then err (too_large_error (length line) ceiling)
        else if is_blank line
        then err (blank_refusal line)
        else read_frame line
