-- ===== src/Codec/Decoder/Pieces.antt =====
-- How a byte stream is cut into pieces does not matter to `LineDecoder`.
use mango_protocol.Common.{
  ◌≤◌, ◌<◌, ◌≡◌, refl, sym, ap, ◌∙◌, Bytes, [], ◌++◌, Option, none, some, ltb, ltb→lt, ltb→le,
  length, Bool-cases, Option-cases, inl, inr, arith, append-nil, append_assoc,
}
use mango_protocol.Libs.{Libs}
use mango_protocol.Wire.Error.{CodecError, CodecErrorKind}
use mango_protocol.Codec.Serde.{Serde}
use mango_protocol.Codec.Ndjson.{strip_carriage_return, too_large_error}
use mango_protocol.Codec.Decoder.{
  PushOutcome, LineDecoder, Drained, drain, check_partial, settle, push,
}
use mango_protocol.Codec.Decoder.Lines.{strip-append-le}
use mango_protocol.Codec.Decoder.Loop.{drain_rest, Same, resumed, drain-append, drain-Overflows}

abbrev pub failure_kind : Option CodecError → Option CodecErrorKind
failure_kind none = none
failure_kind (some e) = some e.kind

module _ ⦃L : Libs⦄ ⦃S : Serde L⦄ where
  -- Two pushes, against one push of both pieces: the same frames, a refusal of the same kind, and
  -- the same decoder where nothing was refused.
  pub record Agrees (first second whole : LineDecoder × PushOutcome L) : Type 0 where
    pub frames : first.1.frames ++ second.1.frames ≡ whole.1.frames
    pub kinds : failure_kind second.1.error ≡ failure_kind whole.1.error
    pub states : whole.1.error ≡ none → second.0 ≡ whole.0

  pub push_failed :
      (d : LineDecoder) (e : CodecError) (a : Bytes)
      → d.failure ≡ some e
      → push d a ≡ (d, record { frames = []; error = some e })
  unfolding push
  push_failed d e a f = simp (f, push)

  -- What the loop leaves of the buffer and the pushed bytes.
  abbrev pub ran : LineDecoder → Bytes → Drained L
  ran d a = drain d.max_frame_bytes (length (d.buffer ++ a)) (d.buffer ++ a)

  push_open :
      (d : LineDecoder) (a : Bytes)
      → d.failure ≡ none
      → push d a ≡ settle d (ran d a) (check_partial d.max_frame_bytes (ran d a))
  unfolding push
  push_open d a f = simp (f, push)

  pub push_refused :
      (d : LineDecoder) (a : Bytes) (e : CodecError)
      → d.failure ≡ none
      → check_partial d.max_frame_bytes (ran d a) ≡ some e
      → push d a ≡ (
        record d { buffer = []; failure = some e },
        record { frames = (ran d a).frames; error = some e },
      )
  unfolding settle
  push_refused d a e f c = push_open d a f ∙ ap (settle d (ran d a)) c

  pub push_kept :
      (d : LineDecoder) (a : Bytes)
      → d.failure ≡ none
      → check_partial d.max_frame_bytes (ran d a) ≡ none
      → push d a
        ≡ (record d { buffer = (ran d a).rest }, record { frames = (ran d a).frames; error = none })
  unfolding settle
  push_kept d a f c = push_open d a f ∙ ap (settle d (ran d a)) c

  ran-append :
      (d : LineDecoder) (a b : Bytes)
      → Same (ran d (a ++ b)) (resumed d.max_frame_bytes (ran d a) b)
  ran-append d a b =
      rw (← append_assoc d.buffer a b)
        (drain-append d.max_frame_bytes _ _ (d.buffer ++ a) b (omega arith) (omega arith))

  Agrees-failed :
      (d : LineDecoder) (e : CodecError) (a b : Bytes)
      → d.failure ≡ some e
      → Agrees (push d a) (push (push d a).0 b) (push d (a ++ b))
  Agrees-failed d e a b f =
      rw (push_failed d e a f, push_failed d e b f, push_failed d e (a ++ b) f)
        (record { frames = refl; kinds = refl; states = λ h. refl })

  -- A refusal in the first piece: the second changes nothing, and one push refuses likewise.
  Agrees-refused :
      (d : LineDecoder) (e e' : CodecError) (a b : Bytes)
      → d.failure ≡ none
      → check_partial d.max_frame_bytes (ran d a) ≡ some e
      → check_partial d.max_frame_bytes (ran d (a ++ b)) ≡ some e'
      → e.kind ≡ e'.kind
      → (ran d (a ++ b)).frames ≡ (ran d a).frames
      → Agrees (push d a) (push (push d a).0 b) (push d (a ++ b))
  Agrees-refused d e e' a b f c c' k fr =
      rw (push_refused d a e f c, push_refused d (a ++ b) e' f c')
        (rw (push_failed (record d { buffer = []; failure = some e }) e b refl) (record {
          frames = append-nil (ran d a).frames ∙ sym fr;
          kinds = ap some k;
          states = λ h. cc;
        }))

  open_refused :
      (d : LineDecoder) (e : CodecError) (a b : Bytes)
      → d.failure ≡ none
      → (ran d a).refused ≡ some e
      → Agrees (push d a) (push (push d a).0 b) (push d (a ++ b))
  unfolding check_partial
  open_refused d e a b f r =
      let s = ran-append d a b in
      Agrees-refused d e e a b f (ground arith) (ground (arith, s.refused)) refl
        (ground (arith, s.frames))

  open_oversize :
      (d : LineDecoder) (a b : Bytes)
      → d.failure ≡ none
      → (ran d a).refused ≡ none
      → d.max_frame_bytes < length (strip_carriage_return (ran d a).rest)
      → Agrees (push d a) (push (push d a).0 b) (push d (a ++ b))
  unfolding check_partial too_large_error
  open_oversize d a b f r over =
      let s = ran-append d a b in
      let max = d.max_frame_bytes in
      let t = (ran d a).rest in
      let open_end = drain_rest max _ (d.buffer ++ a) (omega arith) r in
      let next = drain-Overflows max t b open_end over in
      let longer = strip-append-le t b in
      let now : check_partial max (ran d a)
          ≡ some (too_large_error (length (strip_carriage_return t)) max) =
        ground arith in
      let frames : (ran d (a ++ b)).frames ≡ (ran d a).frames =
        ground (arith, s.frames, next.silent, append-nil (ran d a).frames) in
      elim next.outcome [
        | inl (q, all) ↦
            Agrees-refused d _ (too_large_error (length (strip_carriage_return (t ++ b))) max) a b f
              now (ground (arith, s.refused, s.rest, q, all, longer)) refl frames
        | inr (n, q) ↦
            Agrees-refused d _ (too_large_error n max) a b f now (ground (arith, s.refused, q)) refl
              frames
      ]

  -- The first piece is accepted: the decoder goes on from its rest.
  open_kept :
      (d : LineDecoder) (a b : Bytes)
      → d.failure ≡ none
      → (ran d a).refused ≡ none
      → length (strip_carriage_return (ran d a).rest) ≤ d.max_frame_bytes
      → Agrees (push d a) (push (push d a).0 b) (push d (a ++ b))
  unfolding check_partial
  open_kept d a b f r fits =
      let d1 : LineDecoder = record d { buffer = (ran d a).rest } in
      let s = ran-append d a b in
      rw (push_kept d a f (ground arith))
        (elim (Option-cases (check_partial d.max_frame_bytes (ran d1 b))) [
          | inl c ↦
              rw (push_kept d1 b f c, push_kept d (a ++ b) f (ground (arith, s.refused, s.rest)))
                (record {
                  frames = ground (arith, s.frames);
                  kinds = refl;
                  states = λ h. ground (arith, s.rest, s.refused);
                })
          | inr (e, c) ↦
              rw
                (
                  push_refused d1 b e f c,
                  push_refused d (a ++ b) e f (ground (arith, s.refused, s.rest)),
                )
                (record { frames = ground (arith, s.frames); kinds = refl; states = λ h. cc })
        ])

  -- For every state of a decoder and every cut of the bytes into two pieces: pushing the pieces
  -- gives the frames that one push of all of them gives, ends in a refusal of the same kind or in
  -- none, and without a refusal leaves the same decoder.
  pub push-append :
      (d : LineDecoder) (a b : Bytes) → Agrees (push d a) (push (push d a).0 b) (push d (a ++ b))
  push-append d a b = elim (Option-cases d.failure) [
    | inr (e, f) ↦ Agrees-failed d e a b f
    | inl f ↦ elim (Option-cases (ran d a).refused) [
      | inr (e, r) ↦ open_refused d e a b f r
      | inl r ↦
          elim (Bool-cases
            (ltb d.max_frame_bytes (length (strip_carriage_return (ran d a).rest)))) [
              | inl over ↦ open_oversize d a b f r (ltb→lt _ _ over)
              | inr fits ↦ open_kept d a b f r (ltb→le _ _ fits)
            ]
    ]
  ]
