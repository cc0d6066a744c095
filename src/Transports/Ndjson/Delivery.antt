-- ===== src/Transports/Ndjson/Delivery.antt =====
-- What the receive half of an NDJSON port is told, whatever the reads.
pub mod Streams
pub mod Wires
use mango_protocol.Common.{
  ℕ, zero, suc, ◌≡◌, refl, sym, ap, ◌∙◌, Text, Bytes, List, [], ◌∷◌, ◌++◌, map, Bool, true, false,
  if◌then◌else◌, Option, none, some, Option-cases, inl, inr, arith,
}
use mango_protocol.Libs.{Libs}
use mango_protocol.Wire.Error.{CodecError}
use mango_protocol.Wire.Close.{close_code_for_codec_error}
use mango_protocol.Wire.Frame.{Frame}
use mango_protocol.Codec.Serde.{Serde}
use mango_protocol.Codec.Decoder.{LineDecoder, new_decoder, push}
use mango_protocol.Session.State.{PortClosure}
use mango_protocol.Port.{Inbound}
use mango_protocol.Port.Channel.{Poll, pending, ready}
use mango_protocol.Transports.Ndjson.{
  Read, chunk, failed, WriterCall, NdjsonRx, new_rx, at_hand, refuse_if, on_read, recv, recv_all,
}

-- What a receiver is told, in order, and whether nothing comes after it.
pub record Told (L : Libs) : Type 0 where
  pub items : List (Inbound L)
  pub over : Bool

module _ {L : Libs} where
  abbrev pub first_of : List (Inbound L) → Bool → Poll (Inbound L)
  first_of (item ∷ items) over = ready (some item)
  first_of [] true = ready none
  first_of [] false = pending

  abbrev pub behind : List (Inbound L) → List (Inbound L)
  behind [] = []
  behind (item ∷ items) = items

  abbrev pub later : Told L → Told L
  later t = record t { items = behind t.items }

  -- What a number of calls tell: the items in order, and then that there are no more, or nothing.
  unfoldable pub tell : ℕ → Told L → List (Poll (Inbound L))
  tell zero t = []
  tell (suc n) t = first_of t.items t.over ∷ tell n (later t)

  abbrev pub ends_with : PortClosure → Told L
  ends_with closure = record { items = Inbound.closed closure ∷ []; over = true }

  abbrev pub prepend : List (Frame L) → Told L → Told L
  prepend [] t = t
  prepend (f ∷ frames) t =
      let rest = prepend frames t in
      record { items = Inbound.frame f ∷ rest.items; over = rest.over }

  -- The refusal of a push, where there was one.
  abbrev pub refused_or : Option CodecError → Told L → Told L
  refused_or none t = t
  refused_or (some error) t =
      ends_with (PortClosure.protocol_error error (close_code_for_codec_error error))

module _ ⦃L : Libs⦄ ⦃S : Serde L⦄ where
  -- The frames of the reads up to the first refusal, end or failure, and the closure for it.
  unfoldable pub inbounds : LineDecoder → List Read → Told L
  inbounds d [] = record { items = []; over = false }
  inbounds d (failed error ∷ reads) = ends_with (PortClosure.closed none (some error))
  inbounds d (chunk [] ∷ reads) = ends_with (PortClosure.closed none none)
  inbounds d (chunk (b ∷ bytes) ∷ reads) =
      prepend (push d (b ∷ bytes)).1.frames
        (refused_or (push d (b ∷ bytes)).1.error (inbounds (push d (b ∷ bytes)).0 reads))

  -- What a receive half in any state is still told.
  told_of : LineDecoder → List (Frame L) → Option PortClosure → Bool → List Read → Told L
  told_of d p (some closure) t reads = prepend p (ends_with closure)
  told_of d p none true reads = prepend p (record { items = []; over = true })
  told_of d p none false reads = prepend p (inbounds d reads)

  abbrev told : NdjsonRx L → List Read → Told L
  told rx reads = told_of rx.decoder rx.pending rx.closure rx.terminal reads

  abbrev rx_of :
      LineDecoder → List (Frame L) → Option PortClosure → List WriterCall → ℕ → Bool → NdjsonRx L
  rx_of d p c ws m t = record {
    decoder = d;
    pending = p;
    closure = c;
    calls = ws;
    max_frame_bytes = m;
    terminal = t;
  }

  told_refuse_if :
      (e : Option CodecError) (d : LineDecoder) (p : List (Frame L)) (ws : List WriterCall) (m : ℕ)
      (reads : List Read)
      → told (refuse_if e (rx_of d p none ws m false)) reads
        ≡ prepend p (refused_or e (inbounds d reads))
  unfolding refuse_if told_of
  told_refuse_if none d p ws m reads = refl
  told_refuse_if (some error) d p ws m reads = refl

  told_read :
      (r : Read) (d : LineDecoder) (ws : List WriterCall) (m : ℕ) (reads : List Read)
      → told (on_read r (rx_of d [] none ws m false)) reads ≡ inbounds d (r ∷ reads)
  unfolding on_read inbounds told_of
  told_read (failed error) d ws m reads = refl
  told_read (chunk []) d ws m reads = refl
  told_read (chunk (b ∷ bytes)) d ws m reads =
      told_refuse_if (push d (b ∷ bytes)).1.error (push d (b ∷ bytes)).0
        (push d (b ∷ bytes)).1.frames ws m reads

  -- One call of `recv`: it gives the first thing that is told, and leaves the others.
  abbrev Delivers : NdjsonRx L → List Read → Type 0
  Delivers rx reads =
      let r = recv rx reads in
      (r.1.1 ≡ first_of (told rx reads).items (told rx reads).over)
      × (told r.0 r.1.0 ≡ later (told rx reads))

  recv-Delivers :
      (d : LineDecoder) (p : List (Frame L)) (c : Option PortClosure) (ws : List WriterCall) (m : ℕ)
      (t : Bool) (reads : List Read)
      → Delivers (rx_of d p c ws m t) reads
  unfolding recv told_of inbounds
  recv-Delivers d (f ∷ p) (some closure) ws m t [] = (refl, refl)
  recv-Delivers d (f ∷ p) (some closure) ws m t (r ∷ reads) = (refl, refl)
  recv-Delivers d (f ∷ p) none ws m true [] = (refl, refl)
  recv-Delivers d (f ∷ p) none ws m true (r ∷ reads) = (refl, refl)
  recv-Delivers d (f ∷ p) none ws m false [] = (refl, refl)
  recv-Delivers d (f ∷ p) none ws m false (r ∷ reads) = (refl, refl)
  recv-Delivers d [] (some closure) ws m t [] = (refl, refl)
  recv-Delivers d [] (some closure) ws m t (r ∷ reads) = (refl, refl)
  recv-Delivers d [] none ws m true [] = (refl, refl)
  recv-Delivers d [] none ws m true (r ∷ reads) = (refl, refl)
  recv-Delivers d [] none ws m false [] = (refl, refl)
  recv-Delivers d [] none ws m false (r ∷ reads) =
      let rx = on_read r (rx_of d [] none ws m false) in
      let next =
        recv-Delivers rx.decoder rx.pending rx.closure rx.calls rx.max_frame_bytes rx.terminal
          reads in
      let e = told_read r d ws m reads in
      (next.0 ∙ ap (λ (x : Told L). first_of x.items x.over) e, next.1 ∙ ap later e)

  recv_all_told :
      (n : ℕ) (rx : NdjsonRx L) (reads : List Read) → recv_all n rx reads ≡ tell n (told rx reads)
  unfolding recv_all tell
  recv_all_told zero rx reads = refl
  recv_all_told (suc n) rx reads =
      let r = recv rx reads in
      let d =
        recv-Delivers rx.decoder rx.pending rx.closure rx.calls rx.max_frame_bytes rx.terminal
          reads in
      cc (d.0, d.1, recv_all_told n r.0 r.1.0)

  new_rx-told :
      (max : ℕ) (rx : NdjsonRx L) (reads : List Read)
      → new_rx max ≡ some rx
      → told rx reads ≡ inbounds rx.decoder reads
  unfolding new_rx told_of
  new_rx-told max rx reads h = elim (Option-cases (new_decoder max)) [
    | inl e ↦ absurd (ground (arith, e))
    | inr (d, e) ↦ let same : rx ≡ rx_of d [] none [] max false = ground (arith, e) in rw same refl
  ]

  -- The calls of `recv` on a fresh receive half give, however many they are, the frames that the
  -- decoder makes of the reads, in order, then one closure (the end of the file, the read that
  -- failed, or the refusal with its close code), and nothing after that; where the reads run out
  -- before a closure, `recv` waits.
  pub recv_all-tell :
      (max : ℕ) (rx : NdjsonRx L) (reads : List Read) (n : ℕ)
      → new_rx max ≡ some rx
      → recv_all n rx reads ≡ tell n (inbounds rx.decoder reads)
  recv_all-tell max rx reads n h =
      recv_all_told n rx reads ∙ ap (tell n) (new_rx-told max rx reads h)
