-- ===== src/Codec/Reassembler/Cuts.antt =====
-- How the bytes of a frame are cut into chunks.
use mango_protocol.Common.{
  ℕ, suc, ◌+◌, ◌-◌, ◌*◌, ◌^◌, ◌≤◌, ◌<◌, ◌≡◌, ap, ◌∙◌, Bytes, ◌++◌, length, length-take, length-drop,
  take, drop, min, none, some, ◌⊎◌, arith,
}
use mango_protocol.Codec.Chunk.{max_chunks_for, ChunkReassembler, slice, min_nonfinal_payload_bytes}
use mango_protocol.Codec.Reassembler.{Chunk, next_u32}
use mango_protocol.Codec.Reassembler.Slices.{take_step}

scaled-le : (i n capacity : ℕ) → i ≤ n → i * capacity ≤ n * capacity
scaled-le i n capacity h = grind arith

-- How `encode_chunks` cuts `bytes`: `count` chunks of `capacity` bytes and no fewer, under the frame
-- limit `max`.
pub record Cut : Type 0 where
  pub bytes : Bytes
  pub capacity : ℕ
  pub count : ℕ
  pub max : ℕ
  pub nonempty : 1 ≤ length bytes
  pub wide : min_nonfinal_payload_bytes ≤ capacity
  pub positive : 1 ≤ count
  pub covers : length bytes ≤ count * capacity
  pub tight : count * capacity < length bytes + capacity
  pub bounded : count ≤ max_chunks_for max
  pub fits : length bytes ≤ max

module _ (cut : Cut) where
  -- The state of the receiver before chunk `i`.
  pub record Before (i : ℕ) (r : ChunkReassembler) : Type 0 where
    pub limit : r.max_frame_bytes ≡ cut.max
    pub next : r.next_index ≡ i
    pub started : (r.count ≡ none) ⊎ (r.count ≡ some cut.count)
    pub buffered : r.buffer ≡ take (i * cut.capacity) cut.bytes

  pub count-lt : cut.count < 2 ^ 32
  unfolding max_chunks_for
  count-lt = omega (arith, cut.bounded)

  unfoldable pub payload_of : ℕ → Bytes
  payload_of i =
      slice cut.bytes (i * cut.capacity) (min (i * cut.capacity + cut.capacity) (length cut.bytes))

  pub starts_inside : (i : ℕ) → i < cut.count → i * cut.capacity < length cut.bytes
  starts_inside i h = omega (arith, scaled-le (suc i) cut.count cut.capacity h, cut.tight)

  pub ends_inside : (i : ℕ) → i + 1 < cut.count → (i + 1) * cut.capacity ≤ length cut.bytes
  ends_inside i h = omega (arith, scaled-le (i + 2) cut.count cut.capacity (omega arith), cut.tight)

  pub length-payload_of :
      (i : ℕ)
      → i < cut.count
      → length (payload_of i) ≡ min cut.capacity (length cut.bytes - i * cut.capacity)
  unfolding payload_of
  length-payload_of i h = omega (
    arith,
    starts_inside i h,
    length-take (min (i * cut.capacity + cut.capacity) (length cut.bytes) - i * cut.capacity)
        (drop (i * cut.capacity) cut.bytes),
    length-drop (i * cut.capacity) cut.bytes,
  )

  -- The receiver's bytes after chunk `i`.
  pub gathered :
      (i : ℕ)
      → i < cut.count
      → take (i * cut.capacity) cut.bytes ++ payload_of i
        ≡ take (min ((i + 1) * cut.capacity) (length cut.bytes)) cut.bytes
  unfolding payload_of
  gathered i h =
      take_step (i * cut.capacity)
        (min (i * cut.capacity + cut.capacity) (length cut.bytes) - i * cut.capacity) cut.bytes
      ∙ ap (λ (n : ℕ). take n cut.bytes) (omega (arith, starts_inside i h))

  -- Chunk `i` as the receiver reads it.
  abbrev pub chunk_at : ℕ → Chunk
  chunk_at i = record { index = i; count = cut.count; payload = payload_of i }

  -- What a receiver holds once it has kept chunk `i`.
  abbrev pub kept : ℕ → ChunkReassembler → ChunkReassembler
  kept i r = record r {
    count = some cut.count;
    next_index = next_u32 i;
    buffer = r.buffer ++ payload_of i;
  }
