-- ===== src/Codec/Reassembler/Messages.antt =====
-- The size and the number of the messages that `encode_chunks` gives.
use mango_protocol.Common.{
  ℕ, zero, suc, ◌+◌, ◌-◌, ◌*◌, ◌≤◌, ◌≡◌, refl, Bytes, List, length, length-take, drop, min, sym,
  All, ok, arith,
}
use mango_protocol.Libs.{Libs}
use mango_protocol.Wire.Frame.{Frame}
use mango_protocol.Validate.Grammar.{max_announced_frame_bytes}
use mango_protocol.Codec.Serde.{Serde, IsCompact}
use mango_protocol.Codec.Chunk.{
  chunk_message, chunk_messages, encode_chunks, chunk_header_bytes, max_chunks_for,
  min_max_message_bytes,
}
use mango_protocol.Codec.Reassembler.RoundTrip.{cut_of}

length-chunk_message :
    (bytes : Bytes) (capacity count index : ℕ)
    → length (chunk_message bytes capacity count index) ≤ chunk_header_bytes + capacity
unfolding chunk_message
length-chunk_message bytes capacity count index = omega (
  arith,
  length-take (min (index * capacity + capacity) (length bytes) - index * capacity)
      (drop (index * capacity) bytes),
)

All-chunk_messages :
    (bytes : Bytes) (capacity count index left : ℕ)
    → All
        (λ m. length m ≤ chunk_header_bytes + capacity)
        (chunk_messages bytes capacity count index left)
      × (length (chunk_messages bytes capacity count index left) ≡ left)
unfolding chunk_messages
All-chunk_messages bytes capacity count index zero = (tt, refl)
All-chunk_messages bytes capacity count index (suc left) =
    let (small, number) = All-chunk_messages bytes capacity count (index + 1) left in
    ((length-chunk_message bytes capacity count index, small), omega (arith, number))

module _ ⦃L : Libs⦄ ⦃S : Serde L⦄ where
  wide_enough :
      (f : Frame L) (max_message max_frame : ℕ) (messages : List Bytes)
      → encode_chunks f max_message max_frame ≡ ok messages
      → min_max_message_bytes ≤ max_message
  unfolding encode_chunks
  wide_enough f max_message max_frame messages h = ground arith

  -- Each message that `encode_chunks` gives, its header included, is within the message ceiling, and
  -- there are no more messages than a receiver with this frame limit takes, which can be announced; if
  -- the JSON writer begins an object with a brace.
  pub encode_chunks-sizes :
      (f : Frame L) (max_message max_frame : ℕ) (messages : List Bytes)
      → IsCompact S
      → max_frame ≤ max_announced_frame_bytes
      → encode_chunks f max_message max_frame ≡ ok messages
      → All (λ m. length m ≤ max_message) messages × (length messages ≤ max_chunks_for max_frame)
  encode_chunks-sizes f max_message max_frame messages compact small h =
      let (cut, w, same_max, same_capacity, cut_up) =
        cut_of f max_message max_frame messages compact small h in
      let (sizes, number) = All-chunk_messages cut.bytes cut.capacity cut.count 0 cut.count in
      let exact : chunk_header_bytes + cut.capacity ≡ max_message =
        omega (arith, same_capacity, wide_enough f max_message max_frame messages h) in
      rw (cut_up, sym exact, sym same_max) (sizes, omega (arith, number, cut.bounded))
