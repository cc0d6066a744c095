-- ===== src/Port/Pair/Refine.antt =====
-- One direction of an in-process pair does what a pipe of frames promises.
use mango_protocol.Common.{
  ◌≡◌, refl, ap, ◌∙◌, List, [], ◌∷◌, ◌++◌, Bool, true, false, Option, none, some, Option-cases,
  Result, ok, err, ℕ, Text, All, Result-cases, inl, inr, arith, if◌then◌else◌,
}
use mango_protocol.Libs.{Libs}
use mango_protocol.Wire.Error.{CodecError}
use mango_protocol.Wire.Frame.{Frame}
use mango_protocol.Codec.Limits.{default_max_frame_bytes}
use mango_protocol.Codec.Serde.{Serde, IsCompact, ReadsBack}
use mango_protocol.Codec.Ndjson.{encode_frame_bytes}
use mango_protocol.Codec.Ndjson.RoundTrip.{decode_line-encode_frame_bytes}
use mango_protocol.Session.State.{PortClosure}
use mango_protocol.Port.{Inbound}
use mango_protocol.Port.Channel.{Mpsc, IsFifo, Fifo, polled, rest_of, Poll, pending, ready}
use mango_protocol.Port.Pipe.{Use, Pipe, new_pipe, put, pipe_recv, pipe_use, pipe_run}
use mango_protocol.Port.Pair.{
  WireMessage, MemoryPort, MemoryPortOptions, MemoryPortTx, MemoryPortRx, half, a_to_b, b_to_a,
  check_option, port_pair_with, split, unwrap_or, close_tx, take_in, recv_rx, roundtrip, carried,
  send_tx, Direction, direction, direction_use, direction_run,
}
use mango_protocol.Port.Pair.Relation.{
  frames, told_frames, told, told_dropped, told_closed, Matches, flowing, ending, over, unheard,
  gone, Views, Agree, after_send, after_recv, after_drop, send_flowing, send_unheard,
}

module _ ⦃L : Libs⦄ ⦃S : Serde L⦄ (M : Mpsc (WireMessage L)) (F : IsFifo M)
    (tx : MemoryPortTx) where
  abbrev Step : Use L → Direction M → Pipe L → Type 0
  Step u d p = Agree M F tx (direction_use M u d) (pipe_use (carried tx) u p)

  close-Step :
      (code : ℕ) (reason : Option Text) {d : Direction M} {p : Pipe L}
      → Matches M F tx d p
      → Step (Use.close code reason) d p
  unfolding direction_use close_tx pipe_use put
  close-Step code reason (flowing fs rx c items t v e) = (
    refl,
    ending (frames fs ++ WireMessage.close code reason ∷ []) rx _ _ t
        (after_drop M F tx _ _ false (after_send M F tx _ c (frames fs) false v))
        (ap
            (λ (l : List (Inbound L)).
              l ++ Inbound.closed (PortClosure.closed (some code) reason) ∷ [])
            e
          ∙ told_closed fs code reason),
  )
  close-Step code reason (ending values rx c items t v e) = (refl, ending values rx c items t v e)
  close-Step code reason (over rx c t) = (refl, over rx c t)
  close-Step code reason (unheard c v) = (refl, gone _)
  close-Step code reason (gone c) = (refl, gone c)

  drop_tx-Step : {d : Direction M} {p : Pipe L} → Matches M F tx d p → Step Use.drop_tx d p
  unfolding direction_use pipe_use put
  drop_tx-Step (flowing fs rx c items t v e) = (
    refl,
    ending (frames fs) rx _ _ t (after_drop M F tx c _ false v) (
        ap (λ (l : List (Inbound L)). l ++ Inbound.closed (PortClosure.closed none none) ∷ []) e
        ∙ told_dropped fs),
  )
  drop_tx-Step (ending values rx c items t v e) = (refl, ending values rx c items t v e)
  drop_tx-Step (over rx c t) = (refl, over rx c t)
  drop_tx-Step (unheard c v) = (refl, gone _)
  drop_tx-Step (gone c) = (refl, gone c)

  drop_rx-Step : {d : Direction M} {p : Pipe L} → Matches M F tx d p → Step Use.drop_rx d p
  unfolding direction_use pipe_use
  drop_rx-Step (flowing fs rx c items t v e) =
      (refl, unheard _ (ap (λ (q : Fifo _). q.receiver_gone) (F.receiver_dropped c)))
  drop_rx-Step (ending values rx c items t v e) = (refl, gone _)
  drop_rx-Step (over rx c t) = (refl, gone _)
  drop_rx-Step (unheard c v) = (refl, unheard c v)
  drop_rx-Step (gone c) = (refl, gone c)

  send-Step :
      (f : Frame L) {d : Direction M} {p : Pipe L} → Matches M F tx d p → Step (Use.send f) d p
  unfolding direction_use pipe_use send_tx
  send-Step f (flowing fs rx c items t v e) = rw e (send_flowing M F tx (carried tx f) fs rx c t v)
  send-Step f (ending values rx c items t v e) = (refl, ending values rx c items t v e)
  send-Step f (over rx c t) = (refl, over rx c t)
  send-Step f (unheard c v) = send_unheard M F tx (carried tx f) c v
  send-Step f (gone c) = (refl, gone c)

  -- What a channel gives, by what it holds.
  gives :
      (c : M.Channel) (values : List (WireMessage L)) (s : Bool)
      → Views M F tx c values s false
      → (M.recv c).1 ≡ polled values s
  gives c values s v = F.polls c ∙ ap (λ (q : Fifo _). polled q.values q.sender_gone) v

  -- `recv` before its closure, with what the channel gave.
  receives :
      (rx : MemoryPortRx) (c : M.Channel) (poll : Poll (WireMessage L))
      → rx.terminal ≡ false
      → (M.recv c).1 ≡ poll
      → recv_rx M rx c ≡ take_in M rx (M.recv c).0 poll
  unfolding recv_rx
  receives rx c poll t e = rw (t, recv_rx) (rw (e, take_in) refl)

  recv_flowing :
      (fs : List (Frame L)) (rx : MemoryPortRx) (c : M.Channel)
      → rx.terminal ≡ false
      → Views M F tx c (frames fs) false false
      → Step Use.recv
          (record { tx = some tx; rx = some rx; channel = c })
          (record { items = told_frames fs; done = false; deaf = false })
  unfolding direction_use pipe_use pipe_recv polled rest_of take_in
  recv_flowing [] rx c t v =
      rw (receives rx c pending t (gives c [] false v))
        (refl, flowing [] rx _ _ t (after_recv M F tx c [] false v) refl)
  recv_flowing (f ∷ fs) rx c t v =
      rw (receives rx c (ready (some (WireMessage.frame f))) t (gives c _ false v))
        (refl, flowing fs rx _ _ t (after_recv M F tx c _ false v) refl)

  recv_ending :
      (values : List (WireMessage L)) (rx : MemoryPortRx) (c : M.Channel)
      → rx.terminal ≡ false
      → Views M F tx c values true false
      → Step Use.recv
          (record { tx = none; rx = some rx; channel = c })
          (record { items = told values; done = true; deaf = false })
  unfolding direction_use pipe_use pipe_recv polled rest_of take_in
  recv_ending [] rx c t v =
      rw (receives rx c (ready none) t (gives c [] true v)) (refl, over _ _ refl)
  recv_ending (WireMessage.frame f ∷ values) rx c t v =
      rw (receives rx c (ready (some (WireMessage.frame f))) t (gives c _ true v))
        (refl, ending values rx _ _ t (after_recv M F tx c _ true v) refl)
  recv_ending (WireMessage.close code reason ∷ values) rx c t v =
      rw (receives rx c (ready (some (WireMessage.close code reason))) t (gives c _ true v))
        (refl, over _ _ refl)

  rests :
      (rx : MemoryPortRx) (c : M.Channel)
      → rx.terminal ≡ true
      → recv_rx M rx c ≡ (rx, (c, ready none))
  unfolding recv_rx
  rests rx c t = ground (arith, t)

  recv-Step : {d : Direction M} {p : Pipe L} → Matches M F tx d p → Step Use.recv d p
  unfolding direction_use pipe_use pipe_recv
  recv-Step (flowing fs rx c items t v e) = rw e (recv_flowing fs rx c t v)
  recv-Step (ending values rx c items t v e) = rw e (recv_ending values rx c t v)
  recv-Step (over rx c t) = rw (rests rx c t) (refl, over rx c t)
  recv-Step (unheard c v) = (refl, unheard c v)
  recv-Step (gone c) = (refl, gone c)

  use-Step : (u : Use L) {d : Direction M} {p : Pipe L} → Matches M F tx d p → Step u d p
  use-Step (Use.send f) m = send-Step f m
  use-Step (Use.close code reason) m = close-Step code reason m
  use-Step Use.drop_tx m = drop_tx-Step m
  use-Step Use.recv m = recv-Step m
  use-Step Use.drop_rx m = drop_rx-Step m

  run_refines :
      (uses : List (Use L)) (d : Direction M) (p : Pipe L)
      → Matches M F tx d p
      → direction_run M d uses ≡ pipe_run (carried tx) p uses
  unfolding direction_run pipe_run
  run_refines [] d p m = refl
  run_refines (u ∷ uses) d p m =
      let (s, m') = use-Step u m in
      cc (s, run_refines uses (direction_use M u d).0 (pipe_use (carried tx) u p).0 m')

-- The frames that a pipe takes: all of them, or those that the codec can write.
module _ ⦃L : Libs⦄ ⦃S : Serde L⦄ where
  unfoldable pub written : Result (List ℕ) CodecError → Frame L → Result (Frame L) CodecError
  written (ok bytes) f = ok f
  written (err error) f = err error

  unfoldable pub takes : MemoryPortOptions → Frame L → Result (Frame L) CodecError
  unfolding written
  takes options f =
      if options.validate_frames
      then written
          (encode_frame_bytes f (unwrap_or options.max_frame_bytes default_max_frame_bytes)) f
      else ok f

  abbrev pub Readable : Use L → Type 0
  Readable (Use.send f) = ReadsBack S f
  Readable _ = Unit {0}

  -- The half that an end of the pair sends with.
  abbrev tx_of : MemoryPortOptions → ℕ → MemoryPortTx
  tx_of options sender = record {
    max_frame_bytes = options.max_frame_bytes;
    validate_frames = options.validate_frames;
    sender = sender;
  }

  carried-takes :
      (options : MemoryPortOptions) (sender : ℕ) (f : Frame L)
      → IsCompact S
      → ReadsBack S f
      → carried (tx_of options sender) f ≡ takes options f
  unfolding carried takes roundtrip written
  carried-takes options sender f compact back =
      let max = unwrap_or options.max_frame_bytes default_max_frame_bytes in
      elim (Result-cases (encode_frame_bytes f max)) [
        | inl (bytes, e) ↦
            rw e (rw (decode_line-encode_frame_bytes f max bytes compact back e) refl)
        | inr (x, e) ↦ rw e refl
      ]

  same_use :
      (options : MemoryPortOptions) (sender : ℕ) (u : Use L) (p : Pipe L)
      → IsCompact S
      → Readable u
      → pipe_use (carried (tx_of options sender)) u p ≡ pipe_use (takes options) u p
  unfolding pipe_use
  same_use options sender (Use.send f) p compact back =
      rw (carried-takes options sender f compact back) refl
  same_use options sender (Use.close code reason) p compact back = refl
  same_use options sender Use.drop_tx p compact back = refl
  same_use options sender Use.recv p compact back = refl
  same_use options sender Use.drop_rx p compact back = refl

  same_run :
      (options : MemoryPortOptions) (sender : ℕ) (uses : List (Use L)) (p : Pipe L)
      → IsCompact S
      → All Readable uses
      → pipe_run (carried (tx_of options sender)) p uses ≡ pipe_run (takes options) p uses
  unfolding pipe_run
  same_run options sender [] p compact backs = refl
  same_run options sender (u ∷ uses) p compact (back, backs) =
      rw (same_use options sender u p compact back) (
        ap (◌∷◌ (pipe_use (takes options) u p).1)
          (same_run options sender uses (pipe_use (takes options) u p).0 compact backs))

module _ ⦃L : Libs⦄ ⦃S : Serde L⦄ (M : Mpsc (WireMessage L)) (F : IsFifo M) where
  start :
      (options : MemoryPortOptions) (sender receiver : ℕ)
      → Matches M F
          (tx_of options sender)
          (record {
            tx = some (tx_of options sender);
            rx = some (record { receiver = receiver; terminal = false });
            channel = M.unbounded_channel;
          })
          new_pipe
  start options sender receiver = flowing [] _ _ _ refl (F.new) refl

  run_halves :
      (options : MemoryPortOptions) (sender receiver : ℕ) (uses : List (Use L))
      → IsCompact S
      → All Readable uses
      → direction_run M
          (direction M (half options sender receiver) (half options receiver sender))
          uses
        ≡ pipe_run (takes options) new_pipe uses
  unfolding split
  run_halves options sender receiver uses compact backs =
      run_refines M F (tx_of options sender) uses _ new_pipe (start options sender sender)
      ∙ same_run options sender uses new_pipe compact backs

  halves :
      (options : MemoryPortOptions) (a b : MemoryPort) (n : ℕ)
      → check_option options.max_frame_bytes ≡ some n
      → port_pair_with options ≡ some (a, b)
      → (a ≡ half options a_to_b b_to_a) × (b ≡ half options b_to_a a_to_b)
  unfolding port_pair_with
  halves options a b n e h = (ground (arith, e), ground (arith, e))

  -- Whatever is done with the two halves of one direction of an in-process pair (frames sent, the
  -- sender closed or dropped, items received, the receiver dropped, in any order), what is seen of
  -- it is what a pipe shows: the frames that the ceiling and the codec let through, as they were
  -- sent and in their order, one closure, with the code and the reason of a `close`, and then
  -- nothing. This needs the channel to be first in, first out, and, for the frames that are sent,
  -- the JSON reader to give back what the compact writer wrote.
  pub direction_run-pipe_run :
      (options : MemoryPortOptions) (a b : MemoryPort) (uses : List (Use L))
      → IsCompact S
      → All Readable uses
      → port_pair_with options ≡ some (a, b)
      → (direction_run M (direction M a b) uses ≡ pipe_run (takes options) new_pipe uses)
        × (direction_run M (direction M b a) uses ≡ pipe_run (takes options) new_pipe uses)
  unfolding port_pair_with
  direction_run-pipe_run options a b uses compact backs h =
      elim (Option-cases (check_option options.max_frame_bytes)) [
        | inl e ↦ absurd (ground (arith, e))
        | inr (n, e) ↦
            let (ea, eb) = halves options a b n e h in
            rw (ea, eb)
              (
                run_halves options a_to_b b_to_a uses compact backs,
                run_halves options b_to_a a_to_b uses compact backs,
              )
      ]
