-- ===== src/Codec/Chunk.antt =====
-- WebSocket chunk framing: crates/mango-protocol/src/codec/chunk.rs. A byte is a number below 256.
use mango_protocol.Common.{
  ℕ, zero, suc, ◌+◌, ◌-◌, ◌*◌, ◌/◌, ◌%◌, min, Bytes, List, [], ◌∷◌, ◌++◌, Bool, true, false, ltb,
  if◌then◌else◌, length, take, drop, Option, none, some, Result, ok, err, ◌>>=◌,
}
use Prim.Native.Nat.{max}
use mango_protocol.Libs.{Libs}
use mango_protocol.Wire.Error.{
  lit, CodecError, too_large, chunk_version, chunk_header, chunk_count, chunk_index, chunk_dribble,
  codec_error,
}
use mango_protocol.Wire.Frame.{Frame}
use mango_protocol.Validate.Grammar.{u32_max}
use mango_protocol.Codec.Limits.{check_at_least, check_max_frame_bytes}
use mango_protocol.Codec.Serde.{Serde}
use mango_protocol.Codec.Ndjson.{encode_frame_bytes}

abbrev pub chunk_header_bytes : ℕ
chunk_header_bytes = 9

abbrev pub chunk_format_version : ℕ
chunk_format_version = 1

abbrev pub default_max_message_bytes : ℕ
default_max_message_bytes = 16384

abbrev pub min_max_message_bytes : ℕ
min_max_message_bytes = 2048

abbrev pub min_nonfinal_payload_bytes : ℕ
min_nonfinal_payload_bytes = 1024

-- `usize::div_ceil`
abbrev pub div_ceil : ℕ → ℕ → ℕ
div_ceil a b = (a + (b - 1)) / b

unfoldable pub max_chunks_for : ℕ → ℕ
max_chunks_for max_frame_bytes = min (div_ceil max_frame_bytes min_nonfinal_payload_bytes) u32_max

-- `u32::to_be_bytes` and `u32::from_be_bytes`
abbrev pub to_be_bytes : ℕ → Bytes
to_be_bytes n = n / 16777216 % 256 ∷ n / 65536 % 256 ∷ n / 256 % 256 ∷ n % 256 ∷ []

abbrev pub from_be_bytes : ℕ → ℕ → ℕ → ℕ → ℕ
from_be_bytes a b c d = a * 16777216 + b * 65536 + c * 256 + d

-- Slices `bytes[start..end]`
abbrev pub slice : Bytes → ℕ → ℕ → Bytes
slice bytes start stop = take (stop - start) (drop start bytes)

-- One message of the loop of `encode_chunks`.
unfoldable pub chunk_message : Bytes → ℕ → ℕ → ℕ → Bytes
chunk_message bytes capacity count index =
    let start = index * capacity in
    let stop = min (start + capacity) (length bytes) in
    chunk_format_version ∷ (to_be_bytes index ++ (to_be_bytes count ++ slice bytes start stop))

-- `for index in 0..count`: `left` rounds from `index` on.
unfoldable pub chunk_messages : Bytes → ℕ → ℕ → ℕ → ℕ → List Bytes
chunk_messages bytes capacity count index zero = []
chunk_messages bytes capacity count index (suc left) =
    chunk_message bytes capacity count index ∷ chunk_messages bytes capacity count (index + 1) left

pub record ChunkReassembler : Type 0 where
  pub max_message_bytes : ℕ
  pub max_frame_bytes : ℕ
  pub count : Option ℕ
  pub next_index : ℕ
  pub buffer : Bytes

-- `ChunkReassembler::new`, which panics on a ceiling below its floor.
unfoldable pub new_reassembler : ℕ → ℕ → Option ChunkReassembler
unfolding check_at_least check_max_frame_bytes
new_reassembler max_message_bytes max_frame_bytes =
    elim (check_at_least max_message_bytes min_max_message_bytes) [
      | none ↦ none
      | some message ↦ elim (check_max_frame_bytes max_frame_bytes) [
        | none ↦ none
        | some frame ↦ some (record {
          max_message_bytes = message;
          max_frame_bytes = frame;
          count = none;
          next_index = 0;
          buffer = [];
        })
      ]
    ]

unfoldable pub reset : ChunkReassembler → ChunkReassembler
reset r = record r { count = none; next_index = 0; buffer = [] }

unfoldable pub is_reassembling : ChunkReassembler → Bool
is_reassembling r = elim r.count [ none ↦ false | some _ ↦ true ]

module _ ⦃L : Libs⦄ where
  unfoldable pub version_refusal : ℕ → CodecError
  version_refusal version = codec_error chunk_version (
      lit "received chunk format version "
      ++ (L.display version ++ (lit ", expected " ++ L.display chunk_format_version)))

  unfoldable pub header_refusal : Bytes → CodecError
  header_refusal message = codec_error chunk_header (
      lit "received a chunk message of "
      ++ (L.display (length message)
          ++ (lit " bytes, expected at least " ++ L.display chunk_header_bytes)))

  unfoldable pub count_refusal : ℕ → ℕ → CodecError
  count_refusal count bound = codec_error chunk_count (
      lit "received chunk count "
      ++ (L.display count ++ (lit ", expected 1 to " ++ L.display bound)))

  unfoldable pub changed_refusal : ℕ → ℕ → CodecError
  changed_refusal count started = codec_error chunk_count (
      lit "received chunk count "
      ++ (L.display count ++ (lit ", expected " ++ (L.display started ++ lit " for this frame"))))

  unfoldable pub index_refusal : ℕ → ℕ → ℕ → CodecError
  index_refusal index next_index count = codec_error chunk_index (
      lit "received chunk index "
      ++ (L.display index
          ++ (lit ", expected "
              ++ (L.display next_index
                  ++ (lit " of a " ++ (L.display count ++ lit "-chunk frame"))))))

  unfoldable pub empty_refusal : ℕ → CodecError
  empty_refusal index = codec_error chunk_dribble (
      lit "received chunk "
      ++ (L.display index ++ lit " with no payload, expected at least 1 byte"))

  unfoldable pub dribble_refusal : ℕ → ℕ → CodecError
  dribble_refusal bytes index = codec_error chunk_dribble (
      lit "received "
      ++ (L.display bytes
          ++ (lit " payload bytes in non-final chunk "
              ++ (L.display index
                  ++ (lit ", expected at least " ++ L.display min_nonfinal_payload_bytes)))))

  unfoldable pub overflow_refusal : ℕ → ℕ → CodecError
  overflow_refusal accumulated max_frame_bytes = codec_error too_large (
      lit "received "
      ++ (L.display accumulated
          ++ (lit " reassembled bytes, expected at most " ++ L.display max_frame_bytes)))

module _ ⦃L : Libs⦄ ⦃S : Serde L⦄ where
  unfoldable pub encode_chunks : Frame L → ℕ → ℕ → Result (List Bytes) CodecError
  encode_chunks frame max_message_bytes max_frame_bytes =
      if ltb max_message_bytes min_max_message_bytes
      then err (
          codec_error chunk_header (
            lit "received a message ceiling of "
            ++ (L.display max_message_bytes
                ++ (lit " bytes, expected at least " ++ L.display min_max_message_bytes))))
      else do
        bytes ← encode_frame_bytes frame max_frame_bytes
        let capacity = max_message_bytes - chunk_header_bytes
        let bound = max_chunks_for max_frame_bytes
        let count = min (max (div_ceil (length bytes) capacity) 1) u32_max
        if ltb bound count
            then err (
                codec_error chunk_count (
                  lit "received a frame needing "
                  ++ (L.display count ++ (lit " chunks, expected at most " ++ L.display bound))))
            else ok (chunk_messages bytes capacity count 0 count)
