-- ===== src/Codec/Reassembler/RoundTrip.antt =====
-- The chunks of a frame, pushed one after the other, give the frame back.
use mango_protocol.Common.{
  ℕ, suc, ◌-◌, ◌*◌, ◌≤◌, ◌≡◌, refl, ap, sym, ◌∙◌, Bytes, subst, List, length, min, ok, Result-cases,
  inl, inr, arith,
}
use Prim.Native.Nat.{max}
use mango_protocol.Libs.{Libs}
use mango_protocol.Wire.Frame.{Frame}
use mango_protocol.Validate.Grammar.{max_announced_frame_bytes, u32_max}
use mango_protocol.Codec.Serde.{Serde, IsCompact, ReadsBack}
use mango_protocol.Codec.Ndjson.{encode_frame_bytes, decode_line}
use mango_protocol.Codec.Ndjson.RoundTrip.{encode-Encoded, decode-Encoded}
use mango_protocol.Codec.Chunk.{
  max_chunks_for, chunk_messages, encode_chunks, ChunkReassembler, reset, div_ceil,
  chunk_header_bytes,
}
use mango_protocol.Codec.Reassembler.Cuts.{Cut, Before}
use mango_protocol.Codec.Reassembler.Slices.{take_none, few_chunks, ceil_bounds}
use mango_protocol.Codec.Reassembler.Delivery.{Delivers, Delivers-from}

module _ ⦃L : Libs⦄ ⦃S : Serde L⦄ where
  pub cut_of :
      (f : Frame L) (max_message max_frame : ℕ) (messages : List Bytes)
      → IsCompact S
      → max_frame ≤ max_announced_frame_bytes
      → encode_chunks f max_message max_frame ≡ ok messages
      → (cut : Cut) × (encode_frame_bytes f max_frame ≡ ok cut.bytes)
        × (cut.max ≡ max_frame)
        × (cut.capacity ≡ max_message - chunk_header_bytes)
        × (messages ≡ chunk_messages cut.bytes cut.capacity cut.count 0 cut.count)
  unfolding encode_chunks
  cut_of f max_message max_frame messages compact small h =
      elim (Result-cases (encode_frame_bytes f max_frame)) [
        | inr (e, w) ↦ absurd (ground (arith, w))
        | inl (bytes, w) ↦
            let (rest, braced) =
              compact.braced f bytes (encode-Encoded f max_frame bytes w).written in
            let held : 1 ≤ length bytes = rw braced (omega arith) in
            let fits = (encode-Encoded f max_frame bytes w).fits in
            let wide : 2048 ≤ max_message = ground arith in
            let (positive, covers, tight) =
              ceil_bounds (length bytes) (max_message - chunk_header_bytes) held (omega arith) in
            let same : min (max (div_ceil (length bytes) (max_message - chunk_header_bytes)) 1)
                  u32_max
                ≡ div_ceil (length bytes) (max_message - chunk_header_bytes) =
              omega (
                arith,
                positive,
                few_chunks (length bytes) (max_message - chunk_header_bytes) _ positive
                    (omega arith) tight,
              ) in
            let within : div_ceil (length bytes) (max_message - chunk_header_bytes)
                ≤ max_chunks_for max_frame =
              ground (arith, same, w) in
            (
              record {
                bytes = bytes;
                capacity = max_message - chunk_header_bytes;
                count = div_ceil (length bytes) (max_message - chunk_header_bytes);
                max = max_frame;
                nonempty = held;
                wide = omega arith;
                positive = positive;
                covers = covers;
                tight = tight;
                bounded = within;
                fits = fits;
              },
              w,
              refl,
              refl,
              ground (arith, same, w),
            )
      ]

  -- The messages that `encode_chunks` cuts a frame into, pushed in order to a fresh reassembler with
  -- the same frame limit (at most the largest one that can be announced), give nothing before the
  -- last, then the frame, and leave the reassembler fresh; if the JSON reader gives back what the
  -- compact JSON writer wrote of the frame.
  pub push_message-encode_chunks :
      (f : Frame L) (max_message max_frame : ℕ) (messages : List Bytes) (r : ChunkReassembler)
      → IsCompact S
      → ReadsBack S f
      → max_frame ≤ max_announced_frame_bytes
      → encode_chunks f max_message max_frame ≡ ok messages
      → r.max_frame_bytes ≡ max_frame
      → r ≡ reset r
      → Delivers f r r messages
  unfolding reset
  push_message-encode_chunks f max_message max_frame messages r compact back small h limit fresh =
      let (cut, w, same_max, same_capacity, cut_up) =
        cut_of f max_message max_frame messages compact small h in
      let encoded = encode-Encoded f max_frame cut.bytes w in
      let read : decode_line cut.bytes cut.max ≡ ok f =
        rw same_max (decode-Encoded f max_frame cut.bytes compact back encoded) in
      let before : Before cut 0 r = record {
        limit = limit ∙ sym same_max;
        next = ap (λ (s : ChunkReassembler). s.next_index) fresh;
        started = inl (ap (λ (s : ChunkReassembler). s.count) fresh);
        buffered =
            ap (λ (s : ChunkReassembler). s.buffer) fresh
            ∙ sym (take_none (0 * cut.capacity) cut.bytes (omega arith));
      } in
      let left : suc (cut.count - 1) ≡ cut.count = omega (arith, cut.positive) in
      let delivered =
        Delivers-from cut (cut.count - 1) 0 r f (omega (arith, cut.positive)) before read in
      rw cut_up (
        subst (λ n. Delivers f r r (chunk_messages cut.bytes cut.capacity cut.count 0 n)) left
          (subst
            (λ s.
              Delivers f s r
                (chunk_messages cut.bytes cut.capacity cut.count 0 (suc (cut.count - 1))))
            (sym fresh) delivered))
