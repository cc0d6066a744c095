-- ===== src/Codec/Decoder.antt =====
-- `LineDecoder` of crates/mango-protocol/src/codec/ndjson.rs.
pub mod Lines
pub mod Loop
pub mod Pieces
pub mod Bounds
pub mod Streams
use mango_protocol.Common.{
  ℕ, zero, suc, ◌+◌, Text, Bytes, List, [], ◌∷◌, ◌++◌, Bool, true, false, ltb, ◌==◌, if◌then◌else◌,
  length, Option, none, some, Result, ok, err,
}
use mango_protocol.Libs.{Libs}
use mango_protocol.Wire.Error.{CodecError}
use mango_protocol.Wire.Frame.{Frame}
use mango_protocol.Codec.Limits.{min_max_frame_bytes, check_at_least}
use mango_protocol.Codec.Serde.{Serde}
use mango_protocol.Codec.Ndjson.{strip_carriage_return, is_blank, too_large_error, decode_line}

pub record PushOutcome (L : Libs) : Type 0 where
  pub frames : List (Frame L)
  pub error : Option CodecError

unfoldable pub is_ok : {L : Libs} → PushOutcome L → Bool
is_ok outcome = elim outcome.error [ none ↦ true | some _ ↦ false ]

pub record LineDecoder : Type 0 where
  pub max_frame_bytes : ℕ
  pub buffer : Bytes
  pub failure : Option CodecError

-- `LineDecoder::new`, which panics on a ceiling below the floor.
unfoldable pub new_decoder : ℕ → Option LineDecoder
unfolding check_at_least
new_decoder max_frame_bytes = elim (check_at_least max_frame_bytes min_max_frame_bytes) [
  | none ↦ none
  | some ceiling ↦ some (record { max_frame_bytes = ceiling; buffer = []; failure = none })
]

abbrev pub extend_line : ℕ → Option (Bytes × Bytes) → Option (Bytes × Bytes)
extend_line b none = none
extend_line b (some (line, rest)) = some (b ∷ line, rest)

-- The bytes before the first `\n` and those after it.
unfoldable pub take_line : Bytes → Option (Bytes × Bytes)
take_line [] = none
take_line (b ∷ buffer) = if b == 10 then some ([], buffer) else extend_line b (take_line buffer)

-- What the loop of `push` leaves: `rest` is the buffer past `consumed`.
pub record Drained (L : Libs) : Type 0 where
  pub frames : List (Frame L)
  pub refused : Option CodecError
  pub rest : Bytes

module _ ⦃L : Libs⦄ ⦃S : Serde L⦄ where
  -- One line of the loop: refuse it, skip it, or add its frame before what the later rounds give.
  unfoldable pub drain_line : ℕ → Bytes → Bytes → Drained L → Drained L
  drain_line max_frame_bytes line rest more =
      let content = strip_carriage_return line in
      if ltb max_frame_bytes (length content)
      then record {
        frames = [];
        refused = some (too_large_error (length content) max_frame_bytes);
        rest = rest;
      }
      else if is_blank content
      then more
      else elim (decode_line line max_frame_bytes) [
        | ok frame ↦ record {
          frames = frame ∷ more.frames;
          refused = more.refused;
          rest = more.rest;
        }
        | err error ↦ record { frames = []; refused = some error; rest = rest }
      ]

  -- The `while` loop of `push`. A round takes a byte at least, so `length buffer` rounds suffice.
  unfoldable pub drain : ℕ → ℕ → Bytes → Drained L
  drain max_frame_bytes zero buffer = record { frames = []; refused = none; rest = buffer }
  drain max_frame_bytes (suc fuel) buffer = elim (take_line buffer) [
    | none ↦ record { frames = []; refused = none; rest = buffer }
    | some (line, rest) ↦ drain_line max_frame_bytes line rest (drain max_frame_bytes fuel rest)
  ]

  -- The check of the partial record, where no complete one was refused.
  unfoldable pub check_partial : ℕ → Drained L → Option CodecError
  check_partial max_frame_bytes drained = elim drained.refused [
    | some error ↦ some error
    | none ↦
        let partial = length (strip_carriage_return drained.rest) in
        if ltb max_frame_bytes partial then some (too_large_error partial max_frame_bytes) else none
  ]

  unfoldable pub settle : LineDecoder → Drained L → Option CodecError → LineDecoder × PushOutcome L
  settle decoder drained (some error) = (
    record decoder { buffer = []; failure = some error },
    record { frames = drained.frames; error = some error },
  )
  settle decoder drained none =
      (record decoder { buffer = drained.rest }, record { frames = drained.frames; error = none })

  unfoldable pub push : LineDecoder → Bytes → LineDecoder × PushOutcome L
  unfolding settle
  push decoder bytes = elim decoder.failure [
    | some failure ↦ (decoder, record { frames = []; error = some failure })
    | none ↦
        let buffer = decoder.buffer ++ bytes in
        let drained = drain decoder.max_frame_bytes (length buffer) buffer in
        settle decoder drained (check_partial decoder.max_frame_bytes drained)
  ]

  unfoldable pub finish_line :
      LineDecoder → Bytes → LineDecoder × Result (List (Frame L)) CodecError
  finish_line decoder line =
      if is_blank (strip_carriage_return line)
      then (decoder, ok [])
      else elim (decode_line line decoder.max_frame_bytes) [
        | ok frame ↦ (decoder, ok (frame ∷ []))
        | err error ↦ (record decoder { failure = some error }, err error)
      ]

  unfoldable pub finish : LineDecoder → LineDecoder × Result (List (Frame L)) CodecError
  unfolding finish_line
  finish decoder = elim decoder.failure [
    | some failure ↦ (decoder, err failure)
    | none ↦ finish_line (record decoder { buffer = [] }) decoder.buffer
  ]
