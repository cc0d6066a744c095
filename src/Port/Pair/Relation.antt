-- ===== src/Port/Pair/Relation.antt =====
-- When one direction of an in-process pair stands for a pipe of frames, and the sends that keep it so.
use mango_protocol.Common.{
  ◌≡◌, refl, sym, ap, ◌∙◌, List, [], ◌∷◌, ◌++◌, map, map-append, Bool, true, false, not, Option,
  none, some, Result, ok, err, ℕ, Text,
}
use mango_protocol.Libs.{Libs}
use mango_protocol.Wire.Error.{CodecError}
use mango_protocol.Wire.Frame.{Frame}
use mango_protocol.Session.State.{PortClosure}
use mango_protocol.Port.{Inbound}
use mango_protocol.Port.Channel.{Mpsc, IsFifo, Fifo, fifo_send, rest_of}
use mango_protocol.Port.Pipe.{Seen, outcome, Pipe, put, pipe_send}
use mango_protocol.Port.Pair.{
  WireMessage, MemoryPortTx, MemoryPortRx, forward, outcome_of_send, send_carried, Direction,
}

module _ {L : Libs} where
  abbrev pub frames : List (Frame L) → List (WireMessage L)
  frames fs = map WireMessage.frame fs

  abbrev pub told_frames : List (Frame L) → List (Inbound L)
  told_frames fs = map Inbound.frame fs

  -- What a receiver has still to be told of a channel whose sender is gone.
  abbrev pub told : List (WireMessage L) → List (Inbound L)
  told [] = Inbound.closed (PortClosure.closed none none) ∷ []
  told (WireMessage.frame f ∷ values) = Inbound.frame f ∷ told values
  told (WireMessage.close code reason ∷ values) =
      Inbound.closed (PortClosure.closed (some code) reason) ∷ []

  pub told_dropped :
      (fs : List (Frame L))
      → told_frames fs ++ Inbound.closed (PortClosure.closed none none) ∷ [] ≡ told (frames fs)
  told_dropped [] = refl
  told_dropped (f ∷ fs) = ap (◌∷◌ (Inbound.frame f)) (told_dropped fs)

  pub told_closed :
      (fs : List (Frame L)) (code : ℕ) (reason : Option Text)
      → told_frames fs ++ Inbound.closed (PortClosure.closed (some code) reason) ∷ []
        ≡ told (frames fs ++ WireMessage.close code reason ∷ [])
  told_closed [] code reason = refl
  told_closed (f ∷ fs) code reason = ap (◌∷◌ (Inbound.frame f)) (told_closed fs code reason)

  module _ (M : Mpsc (WireMessage L)) (F : IsFifo M) (tx : MemoryPortTx) where
    abbrev pub Views : M.Channel → List (WireMessage L) → Bool → Bool → Type 0
    Views c values sender_gone receiver_gone =
        F.view c
        ≡ record { values = values; sender_gone = sender_gone; receiver_gone = receiver_gone }

    -- A direction and the pipe that it stands for.
    pub data Matches : Direction M → Pipe L → Type 0 where
      flowing :
          (fs : List (Frame L)) (rx : MemoryPortRx) (c : M.Channel) (items : List (Inbound L))
          → rx.terminal ≡ false
          → Views c (frames fs) false false
          → items ≡ told_frames fs
          → Matches
              (record { tx = some tx; rx = some rx; channel = c })
              (record { items = items; done = false; deaf = false })
      ending :
          (values : List (WireMessage L)) (rx : MemoryPortRx) (c : M.Channel)
          (items : List (Inbound L))
          → rx.terminal ≡ false
          → Views c values true false
          → items ≡ told values
          → Matches
              (record { tx = none; rx = some rx; channel = c })
              (record { items = items; done = true; deaf = false })
      over :
          (rx : MemoryPortRx) (c : M.Channel)
          → rx.terminal ≡ true
          → Matches
              (record { tx = none; rx = some rx; channel = c })
              (record { items = []; done = true; deaf = false })
      unheard :
          (c : M.Channel)
          → (F.view c).receiver_gone ≡ true
          → Matches
              (record { tx = some tx; rx = none; channel = c })
              (record { items = []; done = false; deaf = true })
      gone :
          (c : M.Channel)
          → Matches
              (record { tx = none; rx = none; channel = c })
              (record { items = []; done = true; deaf = true })

    abbrev pub Agree : Direction M × Seen L → Pipe L × Seen L → Type 0
    Agree x y = (x.1 ≡ y.1) × Matches x.0 y.0

    pub after_send :
        (m : WireMessage L) (c : M.Channel) (values : List (WireMessage L)) (s : Bool)
        → Views c values s false
        → Views (M.send m c).0 (values ++ m ∷ []) s false
    unfolding fifo_send
    after_send m c values s v = F.sent m c ∙ ap (fifo_send m) v

    pub after_recv :
        (c : M.Channel) (values : List (WireMessage L)) (s : Bool)
        → Views c values s false
        → Views (M.recv c).0 (rest_of values) s false
    after_recv c values s v =
        F.received c ∙ ap (λ (q : Fifo _). record q { values = rest_of q.values }) v

    pub after_drop :
        (c : M.Channel) (values : List (WireMessage L)) (r : Bool)
        → Views c values false r
        → Views (M.drop_sender c) values true r
    after_drop c values r v =
        F.sender_dropped c ∙ ap (λ (q : Fifo _). record q { sender_gone = true }) v

    frames-append :
        (fs : List (Frame L)) (f : Frame L)
        → frames fs ++ WireMessage.frame f ∷ [] ≡ frames (fs ++ f ∷ [])
    frames-append fs f = sym (map-append _ fs (f ∷ []))

    pub send_flowing :
        (r : Result (Frame L) CodecError) (fs : List (Frame L)) (rx : MemoryPortRx) (c : M.Channel)
        → rx.terminal ≡ false
        → Views c (frames fs) false false
        → Agree
            (
              record { tx = some tx; rx = some rx; channel = (send_carried M r c).0 },
              outcome (send_carried M r c).1,
            )
            (pipe_send r (record { items = told_frames fs; done = false; deaf = false }))
    unfolding send_carried forward pipe_send put
    send_flowing (err error) fs rx c t v = (refl, flowing fs rx c _ t v refl)
    send_flowing (ok f) fs rx c t v = (
      ap outcome (
          ap outcome_of_send
            (F.accepted (WireMessage.frame f) c ∙ ap (λ (q : Fifo _). not q.receiver_gone) v)),
      flowing (fs ++ f ∷ []) rx (M.send (WireMessage.frame f) c).0 _ t
          (after_send (WireMessage.frame f) c (frames fs) false v
            ∙ ap
                (λ (l : List (WireMessage L)).
                  let q : Fifo (WireMessage L) = record {
                    values = l;
                    sender_gone = false;
                    receiver_gone = false;
                  } in
                  q)
                (frames-append fs f))
          (sym (map-append _ fs (f ∷ []))),
    )

    pub send_unheard :
        (r : Result (Frame L) CodecError) (c : M.Channel)
        → (F.view c).receiver_gone ≡ true
        → Agree
            (
              record { tx = some tx; rx = none; channel = (send_carried M r c).0 },
              outcome (send_carried M r c).1,
            )
            (pipe_send r (record { items = []; done = false; deaf = true }))
    unfolding send_carried forward pipe_send put fifo_send
    send_unheard (err error) c v = (refl, unheard c v)
    send_unheard (ok f) c v = (
      ap outcome (ap outcome_of_send (F.accepted (WireMessage.frame f) c ∙ ap not v)),
      unheard (M.send (WireMessage.frame f) c).0 (
          ap (λ (q : Fifo _). q.receiver_gone) (F.sent (WireMessage.frame f) c)
          ∙ rw (v, fifo_send) refl),
    )
