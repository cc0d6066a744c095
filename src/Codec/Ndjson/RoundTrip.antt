-- ===== src/Codec/Ndjson/RoundTrip.antt =====
-- A record that the codec wrote is read back.
use mango_protocol.Common.{
  ℕ, ◌≤◌, ◌≡◌, refl, ap, Bytes, [], ◌∷◌, false, ltb, length, All, ok, Result-cases, inl, inr, arith,
}
use mango_protocol.Libs.{Libs}
use mango_protocol.Wire.Frame.{Frame}
use mango_protocol.Validate.Checks.{validate}
use mango_protocol.Codec.Limits.{min_max_frame_bytes}
use mango_protocol.Codec.Serde.{Serde, IsCompact, ReadsBack}
use mango_protocol.Codec.Ndjson.{
  strip_carriage_return, is_blank, check_ceiling, encode_frame_bytes, read_frame, decode_line,
}

abbrev pub Printable : Bytes → Type 0
Printable bytes = All (λ b. 32 ≤ b) bytes

pub strip-Printable : (bytes : Bytes) → Printable bytes → strip_carriage_return bytes ≡ bytes
unfolding strip_carriage_return
strip-Printable [] p = refl
strip-Printable (b ∷ []) p = ground arith
strip-Printable (b ∷ c ∷ bytes) p = ap (◌∷◌ b) (strip-Printable (c ∷ bytes) p.1)

pub braced_not_blank : (rest : Bytes) → is_blank (123 ∷ rest) ≡ false
unfolding is_blank
braced_not_blank rest = refl

module _ ⦃L : Libs⦄ ⦃S : Serde L⦄ where
  -- What a successful encoding has passed.
  pub record Encoded (f : Frame L) (max : ℕ) (bytes : Bytes) : Type 0 where
    pub ceiling : min_max_frame_bytes ≤ max
    pub valid : validate f ≡ ok tt
    pub written : S.to_vec f ≡ ok bytes
    pub fits : length bytes ≤ max

  ceiling_ok : (max c : ℕ) → check_ceiling max ≡ ok c → (min_max_frame_bytes ≤ max) × (c ≡ max)
  unfolding check_ceiling
  ceiling_ok max c h = (ground arith, ground arith)

  pub check_ceiling_ok : (max : ℕ) → min_max_frame_bytes ≤ max → check_ceiling max ≡ ok max
  unfolding check_ceiling
  check_ceiling_ok max h = ground arith

  pub encode-Encoded :
      (f : Frame L) (max : ℕ) (bytes : Bytes)
      → encode_frame_bytes f max ≡ ok bytes
      → Encoded f max bytes
  unfolding encode_frame_bytes
  encode-Encoded f max bytes h = elim (Result-cases (check_ceiling max)) [
    | inr (e, c) ↦ absurd (ground (arith, c))
    | inl (ceiling, c) ↦ elim (Result-cases (validate f)) [
      | inr (e, v) ↦ absurd (ground (arith, c, v))
      | inl (tt, v) ↦ elim (Result-cases (S.to_vec f)) [
        | inr (e, w) ↦ absurd (ground (arith, c, v, w))
        | inl (out, w) ↦
            let (floor, same) = ceiling_ok max ceiling c in
            record {
              ceiling = floor;
              valid = v;
              written = ground (arith, c, v, w);
              fits = ground (arith, c, v, w, same);
            }
      ]
    ]
  ]

  -- A line within the ceiling that holds what the writer wrote of a valid frame.
  pub decode-Encoded :
      (f : Frame L) (max : ℕ) (bytes : Bytes)
      → IsCompact S
      → ReadsBack S f
      → Encoded f max bytes
      → decode_line bytes max ≡ ok f
  unfolding decode_line read_frame
  decode-Encoded f max bytes compact back e =
      let (rest, braced) = compact.braced f bytes e.written in
      let plain = strip-Printable bytes (compact.printable f bytes e.written) in
      let text : is_blank bytes ≡ false = rw braced (braced_not_blank rest) in
      let fits : ltb max (length bytes) ≡ false = ground (arith, e.fits) in
      rw (check_ceiling_ok max e.ceiling, plain, fits, text, back bytes e.written, e.valid) refl

  -- `decode_line` gives back the frame that `encode_frame_bytes` wrote under the same ceiling, if
  -- the JSON reader gives back what the compact JSON writer wrote of it.
  pub decode_line-encode_frame_bytes :
      (f : Frame L) (max : ℕ) (bytes : Bytes)
      → IsCompact S
      → ReadsBack S f
      → encode_frame_bytes f max ≡ ok bytes
      → decode_line bytes max ≡ ok f
  decode_line-encode_frame_bytes f max bytes compact back h =
      decode-Encoded f max bytes compact back (encode-Encoded f max bytes h)
