-- ===== src/Port/Pipe.antt =====
-- What a port promises in one direction, without channels and flags: the receiver is told the
-- frames in the order in which they were sent, then one closure, then nothing.
use mango_protocol.Common.{
  List, [], ◌∷◌, ◌++◌, Bool, true, false, Option, none, some, Result, ok, err, ℕ, Text,
  if◌then◌else◌,
}
use mango_protocol.Libs.{Libs}
use mango_protocol.Wire.Error.{CodecError}
use mango_protocol.Wire.Frame.{Frame}
use mango_protocol.Session.State.{PortClosure}
use mango_protocol.Session.Driver.{SendOutcome, sent}
use mango_protocol.Port.{Inbound}
use mango_protocol.Port.Channel.{Poll, pending, ready}

-- What the owners of the two halves do. A half that is closed or dropped is used no more.
pub data Use (L : Libs) : Type 0 where
  send : Frame L → Use L
  close : ℕ → Option Text → Use L
  drop_tx recv drop_rx : Use L

-- What they see of it; `unusable` is a use of a half that is gone, which does not compile.
pub data Seen (L : Libs) : Type 0 where
  outcome : SendOutcome → Seen L
  received : Poll (Inbound L) → Seen L
  nothing unusable : Seen L

-- What the receiver has still to be told, whether the sender is done, and whether it listens.
pub record Pipe (L : Libs) : Type 0 where
  pub items : List (Inbound L)
  pub done : Bool
  pub deaf : Bool

module _ {L : Libs} where
  abbrev pub new_pipe : Pipe L
  new_pipe = record { items = []; done = false; deaf = false }

  -- An item for the receiver, if it listens.
  unfoldable pub put : Inbound L → Pipe L → Pipe L
  put item p = if p.deaf then p else record p { items = p.items ++ item ∷ [] }

  abbrev pub finish : PortClosure → Pipe L → Pipe L
  finish closure p = record (put (Inbound.closed closure) p) { done = true }

  -- A frame that may be sent, or the refusal of it.
  unfoldable pub pipe_send : Result (Frame L) CodecError → Pipe L → Pipe L × Seen L
  pipe_send (err error) p = (p, outcome (SendOutcome.refused error))
  pipe_send (ok f) p =
      (put (Inbound.frame f) p, outcome (if p.deaf then SendOutcome.closed else sent))

  unfoldable pub pipe_recv : List (Inbound L) → Pipe L → Pipe L × Seen L
  pipe_recv (item ∷ items) p = (record p { items = items }, received (ready (some item)))
  pipe_recv [] p = (p, received (if p.done then ready none else pending))

  -- `checks` says which frames may be sent.
  module _ (checks : Frame L → Result (Frame L) CodecError) where
    unfoldable pub pipe_use : Use L → Pipe L → Pipe L × Seen L
    unfolding pipe_send pipe_recv put
    pipe_use (send f) p = if p.done then (p, unusable) else pipe_send (checks f) p
    pipe_use (close code reason) p =
        if p.done
        then (p, unusable)
        else (finish (PortClosure.closed (some code) reason) p, nothing)
    pipe_use drop_tx p =
        if p.done then (p, unusable) else (finish (PortClosure.closed none none) p, nothing)
    pipe_use recv p = if p.deaf then (p, unusable) else pipe_recv p.items p
    pipe_use drop_rx p =
        if p.deaf then (p, unusable) else (record p { items = []; deaf = true }, nothing)

    -- What is seen of a sequence of uses.
    unfoldable pub pipe_run : Pipe L → List (Use L) → List (Seen L)
    pipe_run p [] = []
    pipe_run p (u ∷ uses) = let (p', seen) = pipe_use u p in seen ∷ pipe_run p' uses
