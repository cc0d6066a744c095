-- ===== src/Transports/Ndjson/Delivery/Streams.antt =====
-- From the lines that were written to the frames that are received.
use mango_protocol.Common.{
  ℕ, ◌≡◌, refl, sym, ap, subst, ◌∙◌, Bytes, List, [], ◌∷◌, ◌++◌, map, append-nil, All, none, some,
  Option-cases, inl, inr, arith,
}
use mango_protocol.Libs.{Libs}
use mango_protocol.Wire.Frame.{Frame}
use mango_protocol.Codec.Serde.{Serde, IsCompact, ReadsBack}
use mango_protocol.Codec.Decoder.{LineDecoder, PushOutcome, new_decoder, push}
use mango_protocol.Codec.Decoder.Pieces.{failure_kind, push-append}
use mango_protocol.Codec.Decoder.Bounds.{push_final}
use mango_protocol.Codec.Decoder.Streams.{IsStream, push-IsStream}
use mango_protocol.Session.State.{PortClosure}
use mango_protocol.Transports.Ndjson.{Read, chunk, NdjsonRx, new_rx, recv_all}
use mango_protocol.Transports.Ndjson.Delivery.{
  Told, tell, ends_with, prepend, refused_or, inbounds, recv_all-tell,
}

abbrev pub concat : List Bytes → Bytes
concat [] = []
concat (piece ∷ pieces) = piece ++ concat pieces

abbrev pub IsFilled : Bytes → Type 0
IsFilled [] = ⊥
IsFilled (b ∷ bytes) = Unit {0}

module _ ⦃L : Libs⦄ ⦃S : Serde L⦄ where
  prepend-append :
      (fs gs : List (Frame L)) (t : Told L) → prepend (fs ++ gs) t ≡ prepend fs (prepend gs t)
  prepend-append [] gs t = refl
  prepend-append (f ∷ fs) gs t = rw (prepend-append fs gs t) refl

  -- Pieces of which the whole was not refused are not refused either.
  first_kept :
      (d : LineDecoder) (a b : Bytes)
      → (push d (a ++ b)).1.error ≡ none
      → ((push d a).1.error ≡ none) × ((push (push d a).0 b).1.error ≡ none)
  first_kept d a b h = elim (Option-cases (push (push d a).0 b).1.error) [
    | inr (e, f) ↦
        absurd (ground (arith, f, ap failure_kind f, ap failure_kind h, (push-append d a b).kinds))
    | inl s ↦ elim (Option-cases (push d a).1.error) [
      | inl f ↦ (f, s)
      | inr (e, f) ↦
          let final =
            ap (λ (x : LineDecoder × PushOutcome L). x.1.error) (push_final d a b e f).0 in
          absurd (ground (arith, final, s))
    ]
  ]

  one_read :
      (d : LineDecoder) (a : Bytes) (reads : List Read)
      → IsFilled a
      → (push d a).1.error ≡ none
      → inbounds d (chunk a ∷ reads) ≡ prepend (push d a).1.frames (inbounds (push d a).0 reads)
  unfolding inbounds
  one_read d [] reads h e = absurd h
  one_read d (b ∷ bytes) reads h e = rw (e, refused_or) refl

  -- Reads that hold a text that is not refused give the frames of the whole.
  inbounds-chunks :
      (d : LineDecoder) (a : Bytes) (pieces : List Bytes) (reads : List Read)
      → IsFilled a
      → All IsFilled pieces
      → (push d (a ++ concat pieces)).1.error ≡ none
      → inbounds d (chunk a ∷ (map chunk pieces ++ reads))
        ≡ prepend
            (push d (a ++ concat pieces)).1.frames
            (inbounds (push d (a ++ concat pieces)).0 reads)
  inbounds-chunks d a [] reads h hs e =
      let same : a ++ [] ≡ a = append-nil a in
      rw same (one_read d a reads h (ap (λ (x : Bytes). (push d x).1.error) (sym same) ∙ e))
  inbounds-chunks d a (b ∷ pieces) reads h (hb, hs) e =
      let (kept, rest) = first_kept d a (b ++ concat pieces) e in
      let agrees = push-append d a (b ++ concat pieces) in
      let second = push (push d a).0 (b ++ concat pieces) in
      one_read d a (map chunk (b ∷ pieces) ++ reads) h kept
      ∙ (ap (prepend (push d a).1.frames) (inbounds-chunks (push d a).0 b pieces reads hb hs rest)
          ∙ (sym (prepend-append (push d a).1.frames second.1.frames (inbounds second.0 reads))
              ∙ cc (agrees.frames, agrees.states e)))

  new_rx_decoder :
      (max : ℕ) (rx : NdjsonRx L)
      → new_rx max ≡ some rx
      → (rx.decoder.max_frame_bytes ≡ max) × (rx.decoder.buffer ≡ []) × (rx.decoder.failure ≡ none)
  unfolding new_rx new_decoder
  new_rx_decoder max rx h = (ground arith, ground arith, ground arith)

  -- The reads of a stream of lines, and then the end of the file.
  inbounds-IsStream :
      (d : LineDecoder) (pieces : List Bytes) (fs : List (Frame L))
      → All IsFilled pieces
      → push d (concat pieces) ≡ (d, record { frames = fs; error = none })
      → push d [] ≡ (d, record { frames = []; error = none })
      → inbounds d (map chunk pieces ++ chunk [] ∷ [])
        ≡ prepend fs (ends_with (PortClosure.closed none none))
  unfolding inbounds
  inbounds-IsStream d [] fs h e n =
      let none_sent : [] ≡ fs = cc (e, n) in
      ap (λ (l : List (Frame L)). prepend l (ends_with (PortClosure.closed none none))) none_sent
  inbounds-IsStream d (a ∷ pieces) fs (h, hs) e n =
      inbounds-chunks d a pieces (chunk [] ∷ []) h hs
        (ap (λ (x : LineDecoder × PushOutcome L). x.1.error) e)
      ∙ ap
          (λ (x : LineDecoder × PushOutcome L).
            prepend x.1.frames (ends_with (PortClosure.closed none none)))
          e

  -- However the reads cut the lines that `encode_line` wrote for a sequence of frames, `recv` on a
  -- fresh receive half with the same ceiling gives exactly these frames, in order, then the closure
  -- without a code that the end of the file means, and nothing after that. This needs the JSON
  -- reader to give back what the compact writer wrote of each frame.
  pub recv_all-IsStream :
      (max : ℕ) (rx : NdjsonRx L) (pieces : List Bytes) (fs : List (Frame L)) (n : ℕ)
      → IsCompact S
      → All (ReadsBack S) fs
      → new_rx max ≡ some rx
      → IsStream max fs (concat pieces)
      → All IsFilled pieces
      → recv_all n rx (map chunk pieces ++ chunk [] ∷ [])
        ≡ tell n (prepend fs (ends_with (PortClosure.closed none none)))
  recv_all-IsStream max rx pieces fs n compact backs h s filled =
      let (ceiling, empty, open_) = new_rx_decoder max rx h in
      let here = subst (λ m. IsStream m fs (concat pieces)) (sym ceiling) s in
      recv_all-tell max rx _ n h
      ∙ ap (tell n) (
          inbounds-IsStream rx.decoder pieces fs filled
            (push-IsStream rx.decoder fs (concat pieces) compact backs here empty open_)
            (push-IsStream rx.decoder [] [] compact tt IsStream.done empty open_))
