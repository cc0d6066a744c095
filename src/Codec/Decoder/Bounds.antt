-- ===== src/Codec/Decoder/Bounds.antt =====
-- What every decoder that the program can build satisfies.
use mango_protocol.Common.{
  ℕ, ◌+◌, ◌≤◌, ◌≡◌, refl, ap, Bytes, [], ◌++◌, length, none, some, Option-cases, Result, inl, inr,
  arith,
}
use mango_protocol.Libs.{Libs}
use mango_protocol.Wire.Error.{CodecError}
use mango_protocol.Codec.Limits.{min_max_frame_bytes}
use mango_protocol.Codec.Serde.{Serde}
use mango_protocol.Codec.Ndjson.{strip_carriage_return}
use mango_protocol.Codec.Decoder.{
  LineDecoder, take_line, new_decoder, check_partial, push, finish, PushOutcome,
}
use mango_protocol.Codec.Decoder.Lines.{strip_bounds}
use mango_protocol.Codec.Decoder.Loop.{drain_rest}
use mango_protocol.Codec.Decoder.Pieces.{ran, push_refused, push_kept, push_failed}

-- The buffer holds one unfinished record within the ceiling (and perhaps its `\r`), and nothing
-- after a refusal.
pub record IsSettled (d : LineDecoder) : Type 0 where
  pub floor : min_max_frame_bytes ≤ d.max_frame_bytes
  pub bounded : length d.buffer ≤ d.max_frame_bytes + 1
  pub unfinished : take_line d.buffer ≡ none
  pub cleared : (e : CodecError) → d.failure ≡ some e → d.buffer ≡ []

take_line-nil : take_line [] ≡ none
unfolding take_line
take_line-nil = refl

-- A new decoder is settled.
pub new_decoder-IsSettled : (max : ℕ) (d : LineDecoder) → new_decoder max ≡ some d → IsSettled d
unfolding new_decoder
new_decoder-IsSettled max d h = record {
  floor = ground arith;
  bounded = ground arith;
  unfinished = ground (arith, take_line-nil);
  cleared = λ e f. ground arith;
}

module _ ⦃L : Libs⦄ ⦃S : Serde L⦄ where
  partial_fits :
      (d : LineDecoder) (a : Bytes)
      → check_partial d.max_frame_bytes (ran d a) ≡ none
      → ((ran d a).refused ≡ none)
        × (length (strip_carriage_return (ran d a).rest) ≤ d.max_frame_bytes)
  unfolding check_partial
  partial_fits d a c = (ground arith, ground arith)

  -- `push` keeps a decoder settled: whatever bytes arrive, at most one record of the ceiling's
  -- size and a `\r` stay buffered, no complete line does, and nothing after a refusal.
  pub push-IsSettled : (d : LineDecoder) (a : Bytes) → IsSettled d → IsSettled (push d a).0
  push-IsSettled d a v = elim (Option-cases d.failure) [
    | inr (e, f) ↦ rw (push_failed d e a f) v
    | inl f ↦ elim (Option-cases (check_partial d.max_frame_bytes (ran d a))) [
      | inr (e, c) ↦ rw (push_refused d a e f c) (record {
        floor = v.floor;
        bounded = omega arith;
        unfinished = take_line-nil;
        cleared = λ e' h. refl;
      })
      | inl c ↦
          let fits = partial_fits d a c in
          let bounds = strip_bounds (ran d a).rest in
          rw (push_kept d a f c) (record {
            floor = v.floor;
            bounded = omega (arith, fits.1, bounds.1);
            unfinished = drain_rest d.max_frame_bytes _ (d.buffer ++ a) (omega arith) fits.0;
            cleared = λ e' h. cc (f, h);
          })
    ]
  ]

  -- After a `push` that reports a refusal, a further `push` gives no frame and the same refusal and
  -- changes nothing, and so does `finish`.
  pub push_final :
      (d : LineDecoder) (a b : Bytes) (e : CodecError)
      → (push d a).1.error ≡ some e
      → (push (push d a).0 b ≡ ((push d a).0, record { frames = []; error = some e }))
        × (finish (push d a).0 ≡ ((push d a).0, Result.err e))
  unfolding finish
  push_final d a b e h = (push_failed (push d a).0 e b failed, simp (failed, finish))
    where
      failed : (push d a).0.failure ≡ some e
      failed = elim (Option-cases d.failure) [
        | inr (e', f) ↦ rw (push_failed d e' a f) (
            ground (
              arith,
              f,
              ap (λ (r : LineDecoder × PushOutcome L). r.1.error) (push_failed d e' a f),
            ))
        | inl f ↦ elim (Option-cases (check_partial d.max_frame_bytes (ran d a))) [
          | inr (e', c) ↦ rw (push_refused d a e' f c) (
              cc (h, ap (λ (r : LineDecoder × PushOutcome L). r.1.error) (push_refused d a e' f c)))
          | inl c ↦ cc (h, ap (λ (r : LineDecoder × PushOutcome L). r.1.error) (push_kept d a f c))
        ]
      ]
