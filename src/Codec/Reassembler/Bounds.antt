-- ===== src/Codec/Reassembler/Bounds.antt =====
-- The state of a reassembler, whatever a peer sends.
use mango_protocol.Common.{
  ℕ, ◌+◌, ◌*◌, ◌≤◌, ◌<◌, ◌≡◌, refl, Bytes, [], ◌++◌, false, length, length-append, Option, none,
  some, Option-cases, ok, Result-cases, Bool-cases, inl, inr, arith,
}
use mango_protocol.Libs.{Libs}
use mango_protocol.Wire.Frame.{Frame}
use mango_protocol.Codec.Limits.{min_max_frame_bytes}
use mango_protocol.Codec.Serde.{Serde}
use mango_protocol.Codec.Ndjson.{decode_line}
use mango_protocol.Codec.Chunk.{
  max_chunks_for, min_nonfinal_payload_bytes, new_reassembler, ChunkReassembler, reset,
}
use mango_protocol.Codec.Reassembler.{
  Chunk, is_final, check_started, read_header, check_chunk, accept_chunk, decode, push_message,
  next_u32,
}

-- Nothing is kept between frames; within one, the chunks so far are fewer than were announced, and
-- each of them has brought its least payload.
abbrev pub Progress : ChunkReassembler → Option ℕ → Type 0
Progress r none = (r.next_index ≡ 0) × (r.buffer ≡ [])
Progress r (some count) =
    (1 ≤ r.next_index)
    × (r.next_index < count)
    × (count ≤ max_chunks_for r.max_frame_bytes)
    × (r.next_index * min_nonfinal_payload_bytes ≤ length r.buffer)

pub record IsSound (r : ChunkReassembler) : Type 0 where
  pub floor : min_max_frame_bytes ≤ r.max_frame_bytes
  pub within : length r.buffer ≤ r.max_frame_bytes
  pub progress : Progress r r.count

-- What `check_chunk` has established.
pub record Passed (r : ChunkReassembler) (c : Chunk) : Type 0 where
  pub positive : 1 ≤ c.count
  pub bounded : c.count ≤ max_chunks_for r.max_frame_bytes
  pub in_order : c.index ≡ r.next_index
  pub same_count : (n : ℕ) → r.count ≡ some n → c.count ≡ n
  pub long : is_final c ≡ false → min_nonfinal_payload_bytes ≤ length c.payload
  pub fits : length r.buffer + length c.payload ≤ r.max_frame_bytes

module _ ⦃L : Libs⦄ where
  started_same :
      (count n : ℕ) (o : Option ℕ) → check_started o count ≡ ok tt → o ≡ some n → count ≡ n
  unfolding check_started
  started_same count n none h e = cc
  started_same count n (some m) h e = ground arith

  pub check-Passed : (r : ChunkReassembler) (c : Chunk) → check_chunk r c ≡ ok tt → Passed r c
  unfolding check_chunk
  check-Passed r c h = record {
    positive = ground arith;
    bounded = ground arith;
    in_order = ground arith;
    same_count = λ n e. ground (arith, started_same c.count n r.count);
    long = λ e. ground arith;
    fits = ground arith;
  }

-- A new reassembler is sound.
pub new_reassembler-IsSound :
    (max_message max_frame : ℕ) (r : ChunkReassembler)
    → new_reassembler max_message max_frame ≡ some r
    → IsSound r
unfolding new_reassembler
new_reassembler-IsSound max_message max_frame r h =
    let (floor, fresh) : (min_max_frame_bytes ≤ max_frame)
        × (r ≡ record {
          max_message_bytes = max_message;
          max_frame_bytes = max_frame;
          count = none;
          next_index = 0;
          buffer = [];
        }) =
      (ground arith, ground arith) in
    rw fresh (record { floor = floor; within = omega arith; progress = (refl, refl) })

-- Where a chunk that passed stands in its frame.
place :
    (r : ChunkReassembler) (c : Chunk)
    → IsSound r
    → Passed r c
    → (c.index < c.count) × (c.index * min_nonfinal_payload_bytes ≤ length r.buffer)
place r c v p = elim (Option-cases r.count) [
  | inl e ↦ ground (arith, p.in_order, p.positive, v.progress)
  | inr (n, e) ↦ ground (arith, p.in_order, p.same_count n e, v.progress)
]

-- A chunk that passed is not the last of 2 ^ 32: the index does not wrap.
next_plain :
    (r : ChunkReassembler) (c : Chunk) → IsSound r → Passed r c → next_u32 c.index ≡ c.index + 1
unfolding max_chunks_for
next_plain r c v p = ground (arith, p.bounded, p.in_order)

module _ ⦃L : Libs⦄ ⦃S : Serde L⦄ where
  reset-IsSound : (r : ChunkReassembler) → IsSound r → IsSound (reset r)
  unfolding reset
  reset-IsSound r v = record { floor = v.floor; within = omega arith; progress = (refl, refl) }

  keep-IsSound :
      (r : ChunkReassembler) (c : Chunk)
      → IsSound r
      → Passed r c
      → is_final c ≡ false
      → IsSound (record r {
        count = some c.count;
        next_index = next_u32 c.index;
        buffer = r.buffer ++ c.payload;
      })
  keep-IsSound r c v p more =
      let plain = next_plain r c v p in
      let at = place r c v p in
      record {
        floor = v.floor;
        within = omega (arith, length-append r.buffer c.payload, p.fits);
        progress = rw plain (
          omega arith,
          ground (arith, at.0, plain),
          p.bounded,
          omega (arith, at.1, p.long more, length-append r.buffer c.payload),
        );
      }

  accept-IsSound :
      (r r' : ChunkReassembler) (c : Chunk) (o : Option (Frame L))
      → IsSound r
      → Passed r c
      → accept_chunk r c ≡ ok (r', o)
      → IsSound r'
  unfolding accept_chunk
  accept-IsSound r r' c o v p h = elim (Bool-cases (is_final c)) [
    | inl final ↦ elim (Result-cases (decode_line (r.buffer ++ c.payload) r.max_frame_bytes)) [
      | inl (frame, d) ↦ let e : r' ≡ reset r = ground (arith, final, d) in rw e (reset-IsSound r v)
      | inr (x, d) ↦ absurd (ground (arith, final, d))
    ]
    | inr more ↦
        let e : r' ≡ record r {
          count = some c.count;
          next_index = next_u32 c.index;
          buffer = r.buffer ++ c.payload;
        } =
          ground (arith, more) in
        rw e (keep-IsSound r c v p more)
  ]

  -- `push` keeps a reassembler sound, whatever message arrives: the buffer never passes the frame
  -- limit, no chunk is taken beyond the announced count, which is within the bound for the limit,
  -- every chunk before the last has brought 1024 bytes, and between frames nothing is kept.
  pub push_message-IsSound :
      (r : ChunkReassembler) (message : Bytes) → IsSound r → IsSound (push_message r message).0
  unfolding push_message decode
  push_message-IsSound r message v = elim (Result-cases (read_header message)) [
    | inr (e, h) ↦ rw (h, push_message) (reset-IsSound r v)
    | inl (c, h) ↦ elim (Result-cases (check_chunk r c)) [
      | inr (e, k) ↦ rw (h, push_message) (rw (k, push_message) (reset-IsSound r v))
      | inl (tt, k) ↦ elim (Result-cases (accept_chunk r c)) [
        | inr (e, a) ↦
            rw (h, push_message) (rw (k, push_message) (rw (a, push_message) (reset-IsSound r v)))
        | inl ((r', o), a) ↦
            rw (h, push_message)
              (rw (k, push_message)
                (rw (a, push_message) (accept-IsSound r r' c o v (check-Passed r c k) a)))
      ]
    ]
  ]
