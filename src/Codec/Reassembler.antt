-- ===== src/Codec/Reassembler.antt =====
-- `ChunkReassembler::push` of crates/mango-protocol/src/codec/chunk.rs.
pub mod Bounds
pub mod Slices
pub mod Cuts
pub mod Delivery
pub mod RoundTrip
pub mod Messages
use mango_protocol.Common.{
  ℕ, zero, suc, ◌+◌, ◌%◌, ◌^◌, Bytes, List, [], ◌∷◌, ◌++◌, Bool, not, ◌&&◌, ◌||◌, ltb, leb, ◌==◌,
  if◌then◌else◌, length, drop, Option, none, some, Result, ok, err, ◌>>=◌, ◌>>◌, map_err, ensure,
}
use mango_protocol.Libs.{Libs}
use mango_protocol.Wire.Error.{CodecError}
use mango_protocol.Wire.Frame.{Frame}
use mango_protocol.Codec.Serde.{Serde}
use mango_protocol.Codec.Ndjson.{decode_line}
use mango_protocol.Codec.Chunk.{
  chunk_header_bytes, chunk_format_version, min_nonfinal_payload_bytes, max_chunks_for,
  from_be_bytes, ChunkReassembler, reset, version_refusal, header_refusal, count_refusal,
  changed_refusal, index_refusal, empty_refusal, dribble_refusal, overflow_refusal,
}

-- `message[i]`, read only behind the length check
abbrev pub byte_at : Bytes → ℕ → ℕ
byte_at [] i = 0
byte_at (b ∷ bs) zero = b
byte_at (b ∷ bs) (suc i) = byte_at bs i

-- `index + 1` in a `u32`
abbrev pub next_u32 : ℕ → ℕ
next_u32 index = (index + 1) % 2 ^ 32

pub record Chunk : Type 0 where
  pub index : ℕ
  pub count : ℕ
  pub payload : Bytes

abbrev pub is_final : Chunk → Bool
is_final c = next_u32 c.index == c.count

abbrev pub is_empty : Bytes → Bool
is_empty [] = Bool.true
is_empty (b ∷ bs) = Bool.false

module _ ⦃L : Libs⦄ where
  unfoldable pub check_version : Bytes → Result (Unit {0}) CodecError
  check_version [] = ok tt
  check_version (version ∷ rest) =
      ensure (version == chunk_format_version) (version_refusal version)

  unfoldable pub read_header : Bytes → Result Chunk CodecError
  unfolding check_version
  read_header message = do
    check_version message
    ensure (not (ltb (length message) chunk_header_bytes)) (header_refusal message)
    ok (record {
      index =
          from_be_bytes (byte_at message 1) (byte_at message 2) (byte_at message 3)
            (byte_at message 4);
      count =
          from_be_bytes (byte_at message 5) (byte_at message 6) (byte_at message 7)
            (byte_at message 8);
      payload = drop chunk_header_bytes message;
    })

  unfoldable pub check_started : Option ℕ → ℕ → Result (Unit {0}) CodecError
  check_started none count = ok tt
  check_started (some started) count = ensure (count == started) (changed_refusal count started)

  -- The rules, in the order the source states them.
  unfoldable pub check_chunk : ChunkReassembler → Chunk → Result (Unit {0}) CodecError
  unfolding check_started
  check_chunk r c = do
    let bound = max_chunks_for r.max_frame_bytes
    ensure (not (c.count == 0 || ltb bound c.count)) (count_refusal c.count bound)
    check_started r.count c.count
    ensure (c.index == r.next_index) (index_refusal c.index r.next_index c.count)
    ensure (not (is_empty c.payload)) (empty_refusal c.index)
    ensure (not (not (is_final c) && ltb (length c.payload) min_nonfinal_payload_bytes))
        (dribble_refusal (length c.payload) c.index)
    ensure (not (ltb r.max_frame_bytes (length r.buffer + length c.payload)))
        (overflow_refusal (length r.buffer + length c.payload) r.max_frame_bytes)

module _ ⦃L : Libs⦄ ⦃S : Serde L⦄ where
  -- What a chunk that passed the rules does: it is kept, or it completes the frame. `count` is
  -- the one that was announced first; `check_chunk` has compared it with the chunk's.
  unfoldable pub accept_chunk :
      ChunkReassembler → Chunk → Result (ChunkReassembler × Option (Frame L)) CodecError
  accept_chunk r c =
      let buffer = r.buffer ++ c.payload in
      if not (is_final c)
      then ok
          (record r { count = some c.count; next_index = next_u32 c.index; buffer = buffer }, none)
      else do frame ← decode_line buffer r.max_frame_bytes; ok (reset r, some frame)

  -- `decode`. A refusal carries no state: `push` resets after each.
  unfoldable pub decode :
      ChunkReassembler → Bytes → Result (ChunkReassembler × Option (Frame L)) CodecError
  unfolding read_header check_chunk accept_chunk
  decode r message = do c ← read_header message; check_chunk r c; accept_chunk r c

  unfoldable pub push_message :
      ChunkReassembler → Bytes → ChunkReassembler × Result (Option (Frame L)) CodecError
  push_message r message = elim (decode r message) [
    | ok (r', outcome) ↦ (r', ok outcome)
    | err error ↦ (reset r, err error)
  ]
