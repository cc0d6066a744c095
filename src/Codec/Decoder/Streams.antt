-- ===== src/Codec/Decoder/Streams.antt =====
-- A stream of encoded records is decoded to its frames.
use mango_protocol.Common.{
  ℕ, suc, ◌≤◌, ◌≡◌, refl, ap, ◌∙◌, Bytes, List, [], ◌∷◌, ◌++◌, false, ltb, length, length-append,
  All, none, some, ok, Result-cases, inl, inr, arith,
}
use mango_protocol.Libs.{Libs}
use mango_protocol.Wire.Frame.{Frame}
use mango_protocol.Codec.Serde.{Serde, IsCompact, ReadsBack}
use mango_protocol.Codec.Ndjson.{strip_carriage_return, is_blank, encode_frame_bytes, encode_line}
use mango_protocol.Codec.Ndjson.RoundTrip.{
  Printable, strip-Printable, braced_not_blank, Encoded, encode-Encoded, decode-Encoded,
}
use mango_protocol.Codec.Decoder.{
  LineDecoder, Drained, take_line, drain_line, drain, check_partial, push,
}
use mango_protocol.Codec.Decoder.Loop.{drain_fuel, drain-some, drain-none, take_line-nil}
use mango_protocol.Codec.Decoder.Pieces.{push_kept, ran}

take_line-Printable :
    (bytes rest : Bytes)
    → Printable bytes
    → take_line ((bytes ++ 10 ∷ []) ++ rest) ≡ some (bytes, rest)
unfolding take_line
take_line-Printable [] rest p = refl
take_line-Printable (b ∷ bytes) rest p = ground (arith, take_line-Printable bytes rest p.1)

module _ ⦃L : Libs⦄ ⦃S : Serde L⦄ where
  -- The bytes of a stream of records: each frame's line, one after the other.
  pub data IsStream (max : ℕ) : List (Frame L) → Bytes → Type 0 where
    done : IsStream max [] []
    line :
        (f : Frame L) (fs : List (Frame L)) (record_bytes rest : Bytes)
        → encode_line f max ≡ ok record_bytes
        → IsStream max fs rest
        → IsStream max (f ∷ fs) (record_bytes ++ rest)

  encode_line_inv :
      (f : Frame L) (max : ℕ) (out : Bytes)
      → encode_line f max ≡ ok out
      → (bytes : Bytes) × (encode_frame_bytes f max ≡ ok bytes) × (out ≡ bytes ++ 10 ∷ [])
  unfolding encode_line
  encode_line_inv f max out h = elim (Result-cases (encode_frame_bytes f max)) [
    | inl (bytes, e) ↦ (bytes, e, ground (arith, e))
    | inr (x, e) ↦ absurd (ground (arith, e))
  ]

  drain_line-Encoded :
      (f : Frame L) (max : ℕ) (bytes rest : Bytes) (more : Drained L)
      → IsCompact S
      → ReadsBack S f
      → Encoded f max bytes
      → drain_line max bytes rest more ≡ record more { frames = f ∷ more.frames }
  unfolding drain_line
  drain_line-Encoded f max bytes rest more compact back e =
      let (tail, braced) = compact.braced f bytes e.written in
      let plain = strip-Printable bytes (compact.printable f bytes e.written) in
      let text : is_blank bytes ≡ false = rw braced (braced_not_blank tail) in
      let fits : ltb max (length bytes) ≡ false = ground (arith, e.fits) in
      rw (plain, fits, text, decode-Encoded f max bytes compact back e, drain_line) refl

  drain-IsStream :
      (max fuel : ℕ) (fs : List (Frame L)) (bytes : Bytes)
      → IsCompact S
      → IsStream max fs bytes
      → All (ReadsBack S) fs
      → length bytes ≤ fuel
      → drain max fuel bytes ≡ record { frames = fs; refused = none; rest = [] }
  drain-IsStream max fuel _ _ compact done back h = drain-none max fuel [] take_line-nil
  drain-IsStream max fuel _ _ compact (line f fs out rest e s) (b, bs) h =
      let (bytes, enc, shape) = encode_line_inv f max out e in
      let good = encode-Encoded f max bytes enc in
      let printable = compact.printable f bytes good.written in
      let found : take_line (out ++ rest) ≡ some (bytes, rest) =
        rw shape (take_line-Printable bytes rest printable) in
      let size : suc (length rest) ≤ length (out ++ rest) =
        rw shape
          (omega (arith, length-append (bytes ++ 10 ∷ []) rest, length-append bytes (10 ∷ []))) in
      let n = length (out ++ rest) in
      drain_fuel max fuel (suc n) (out ++ rest) h (omega arith)
      ∙ drain-some max n (out ++ rest) bytes rest found
      ∙ drain_line-Encoded f max bytes rest (drain max n rest) compact b good
      ∙ ap (λ (d : Drained L). record d { frames = f ∷ d.frames })
          (drain-IsStream max n fs rest compact s bs (omega (arith, size)))

  -- A decoder with an empty buffer and no refusal behind it that receives the lines `encode_line` wrote of some frames
  -- under its ceiling hands back exactly these frames, refuses nothing and is left as it was, if
  -- the JSON reader gives back what the compact JSON writer wrote of each.
  pub push-IsStream :
      (d : LineDecoder) (fs : List (Frame L)) (bytes : Bytes)
      → IsCompact S
      → All (ReadsBack S) fs
      → IsStream d.max_frame_bytes fs bytes
      → d.buffer ≡ []
      → d.failure ≡ none
      → push d bytes ≡ (d, record { frames = fs; error = none })
  unfolding check_partial strip_carriage_return
  push-IsStream d fs bytes compact back s empty open_ =
      let max = d.max_frame_bytes in
      let whole : ran d bytes ≡ record { frames = fs; refused = none; rest = [] } =
        simp empty (drain-IsStream max _ fs bytes compact s back (omega arith)) in
      let quiet : check_partial max (ran d bytes) ≡ none = rw whole (ground arith) in
      push_kept d bytes open_ quiet ∙ rw whole (ground (arith, empty))
