-- ===== src/Codec/Reassembler/Delivery.antt =====
-- What a reassembler does with the chunks of a frame.
use mango_protocol.Common.{
  ℕ, zero, suc, ◌+◌, ◌*◌, ◌^◌, ◌≤◌, ◌<◌, ◌≡◌, refl, ap, sym, ◌∙◌, Bytes, List, [], ◌∷◌, ◌++◌, true,
  false, ◌==◌, length, length-take, take, Option, none, some, ◌⊎◌, ok, Bool-cases, inl, inr, arith,
}
use mango_protocol.Libs.{Libs}
use mango_protocol.Wire.Frame.{Frame}
use mango_protocol.Codec.Serde.{Serde}
use mango_protocol.Codec.Ndjson.{decode_line}
use mango_protocol.Codec.Chunk.{
  max_chunks_for, chunk_message, chunk_messages, ChunkReassembler, reset, to_be_bytes,
  min_nonfinal_payload_bytes,
}
use mango_protocol.Codec.Reassembler.{
  Chunk, is_final, read_header, check_chunk, check_started, accept_chunk, decode, push_message,
  is_empty,
}
use mango_protocol.Codec.Reassembler.Cuts.{
  Cut, Before, count-lt, payload_of, starts_inside, ends_inside, length-payload_of, gathered,
  chunk_at, kept,
}
use mango_protocol.Codec.Reassembler.Slices.{take_all, be_round_trip}

filled : (payload : Bytes) → 1 ≤ length payload → is_empty payload ≡ false
filled [] h = absurd (omega arith)
filled (b ∷ payload) h = refl

module _ ⦃L : Libs⦄ ⦃S : Serde L⦄ where
  -- Messages that a reassembler takes in turn, of which the last one alone gives a frame.
  pub data Delivers (f : Frame L) (s : ChunkReassembler)
      : ChunkReassembler → List Bytes → Type 0 where
    last :
        (r : ChunkReassembler) (m : Bytes)
        → push_message r m ≡ (s, ok (some f))
        → Delivers f s r (m ∷ [])
    part :
        (r t : ChunkReassembler) (m : Bytes) (ms : List Bytes)
        → push_message r m ≡ (t, ok none)
        → Delivers f s t ms
        → Delivers f s r (m ∷ ms)

  read_header_lem :
      (index count : ℕ) (payload : Bytes)
      → index < 2 ^ 32
      → count < 2 ^ 32
      → read_header (1 ∷ (to_be_bytes index ++ (to_be_bytes count ++ payload)))
        ≡ ok (record { index = index; count = count; payload = payload })
  unfolding read_header
  read_header_lem index count payload hi hc =
      ground (arith, be_round_trip index hi, be_round_trip count hc)

  check_complete :
      (r : ChunkReassembler) (c : Chunk)
      → 1 ≤ c.count
      → c.count ≤ max_chunks_for r.max_frame_bytes
      → (r.count ≡ none) ⊎ (r.count ≡ some c.count)
      → c.index ≡ r.next_index
      → 1 ≤ length c.payload
      → (is_final c ≡ true) ⊎ (min_nonfinal_payload_bytes ≤ length c.payload)
      → length r.buffer + length c.payload ≤ r.max_frame_bytes
      → check_chunk r c ≡ ok tt
  unfolding check_chunk check_started
  check_complete r c p b s i e l f = ground (arith, filled c.payload e)

  push_accepted :
      (r : ChunkReassembler) (m : Bytes) (c : Chunk)
      → read_header m ≡ ok c
      → check_chunk r c ≡ ok tt
      → (s : ChunkReassembler) (o : Option (Frame L)) → accept_chunk r c ≡ ok (s, o)
      → push_message r m ≡ (s, ok o)
  unfolding push_message decode
  push_accepted r m c h k s o a =
      rw (h, push_message) (rw (k, push_message) (rw (a, push_message) refl))

module _ (cut : Cut) where
  module _ ⦃L : Libs⦄ ⦃S : Serde L⦄ where
    read_at :
        (i : ℕ)
        → i < cut.count
        → read_header (chunk_message cut.bytes cut.capacity cut.count i) ≡ ok (chunk_at cut i)
    unfolding chunk_message payload_of
    read_at i h = read_header_lem i cut.count _ (omega (arith, count-lt cut)) (count-lt cut)

    -- Only the last chunk may be short.
    long_enough :
        (i : ℕ)
        → i < cut.count
        → (is_final (chunk_at cut i) ≡ true)
          ⊎ (min_nonfinal_payload_bytes ≤ length (payload_of cut i))
    long_enough i h = elim (Bool-cases (i + 1 == cut.count)) [
      | inl final ↦ inl (ground (arith, count-lt cut))
      | inr more ↦
          inr (omega (arith, ends_inside cut i (ground arith), length-payload_of cut i h, cut.wide))
    ]

    gathered_fits :
        (i : ℕ)
        → i < cut.count
        → length (take (i * cut.capacity) cut.bytes) + length (payload_of cut i) ≤ cut.max
    gathered_fits i h = omega (
      arith,
      starts_inside cut i h,
      length-take (i * cut.capacity) cut.bytes,
      length-payload_of cut i h,
      cut.fits,
    )

    check_at :
        (i : ℕ) (r : ChunkReassembler)
        → i < cut.count
        → Before cut i r
        → check_chunk r (chunk_at cut i) ≡ ok tt
    check_at i r h b =
        check_complete r (chunk_at cut i) cut.positive (rw b.limit cut.bounded) b.started
          (sym b.next) (omega (arith, starts_inside cut i h, length-payload_of cut i h, cut.wide))
          (long_enough i h) (rw (b.buffered, b.limit) (gathered_fits i h))

    -- A chunk before the last is kept cut, and the receiver waits for the next.
    push_part :
        (i : ℕ) (r : ChunkReassembler)
        → i + 1 < cut.count
        → Before cut i r
        → push_message r (chunk_message cut.bytes cut.capacity cut.count i)
          ≡ (kept cut i r, ok none)
    unfolding accept_chunk
    push_part i r h b =
        push_accepted r _ (chunk_at cut i) (read_at i (omega arith)) (check_at i r (omega arith) b)
          _ none (ground (arith, count-lt cut))

    kept-Before :
        (i : ℕ) (r : ChunkReassembler)
        → i + 1 < cut.count
        → Before cut i r
        → Before cut (i + 1) (kept cut i r)
    kept-Before i r h b = record {
      limit = b.limit;
      next = omega (arith, count-lt cut);
      started = inr refl;
      buffered = rw b.buffered (
          gathered cut i (omega arith)
          ∙ ap (λ (n : ℕ). take n cut.bytes) (omega (arith, ends_inside cut i h)));
    }

    push_last :
        (i : ℕ) (r : ChunkReassembler) (f : Frame L)
        → i + 1 ≡ cut.count
        → Before cut i r
        → decode_line cut.bytes cut.max ≡ ok f
        → push_message r (chunk_message cut.bytes cut.capacity cut.count i) ≡ (reset r, ok (some f))
    unfolding accept_chunk
    push_last i r f h b d =
        push_accepted r _ (chunk_at cut i) (read_at i (omega arith)) (check_at i r (omega arith) b)
          _ (some f) (ground (arith, decoded, count-lt cut))
      where
        whole : r.buffer ++ payload_of cut i ≡ cut.bytes
        whole = rw b.buffered (
            gathered cut i (omega arith)
            ∙ ap (λ (n : ℕ). take n cut.bytes)
                (omega (arith, cut.covers, ap (λ (n : ℕ). n * cut.capacity) h))
            ∙ take_all cut.bytes)

        decoded : decode_line (r.buffer ++ payload_of cut i) r.max_frame_bytes ≡ ok f
        decoded = rw (whole, b.limit) d

    pub Delivers-from :
        (left i : ℕ) (r : ChunkReassembler) (f : Frame L)
        → i + suc left ≡ cut.count
        → Before cut i r
        → decode_line cut.bytes cut.max ≡ ok f
        → Delivers f (reset r) r (chunk_messages cut.bytes cut.capacity cut.count i (suc left))
    unfolding chunk_messages reset
    Delivers-from zero i r f e b d = last r _ (push_last i r f (omega arith) b d)
    Delivers-from (suc left) i r f e b d =
        part r (kept cut i r) _ _ (push_part i r (omega arith) b) (
          Delivers-from left (i + 1) (kept cut i r) f (omega arith)
            (kept-Before i r (omega arith) b) d)
