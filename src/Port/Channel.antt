-- ===== src/Port/Channel.antt =====
-- `tokio::sync::mpsc::unbounded_channel`, which the crate uses and does not write: its operations,
-- and the behaviour that its documentation promises.
use mango_protocol.Common.{
  ◌≡◌, List, [], ◌∷◌, ◌++◌, Bool, true, false, not, Option, none, some, if◌then◌else◌,
}

-- What a receiver gets: it waits, or has a value, or is told that no sender is left.
pub data Poll (A : Type 0) : Type 0 where
  pending : Poll A
  ready : Option A → Poll A

pub record Mpsc (A : Type 0) : Type 1 where
  pub Channel : Type 0
  pub unbounded_channel : Channel
  -- `sender.send(value)`, with whether it was `Ok`
  pub send : A → Channel → Channel × Bool
  pub recv : Channel → Channel × Poll A
  pub drop_sender : Channel → Channel
  pub drop_receiver : Channel → Channel

-- What a channel holds, as the documentation describes it.
pub record Fifo (A : Type 0) : Type 0 where
  pub values : List A
  pub sender_gone : Bool
  pub receiver_gone : Bool

module _ {A : Type 0} where
  abbrev pub new_fifo : Fifo A
  new_fifo = record { values = []; sender_gone = false; receiver_gone = false }

  -- A value joins the others in order, unless the receiver is gone.
  unfoldable pub fifo_send : A → Fifo A → Fifo A
  fifo_send a q = if q.receiver_gone then q else record q { values = q.values ++ a ∷ [] }

  unfoldable pub polled : List A → Bool → Poll A
  polled [] true = ready none
  polled [] false = pending
  polled (a ∷ values) gone = ready (some a)

  unfoldable pub rest_of : List A → List A
  rest_of [] = []
  rest_of (a ∷ values) = values

-- The channel keeps its values in order, gives the first one, and tells the receiver when it is
-- empty and its sender gone.
pub record IsFifo {A : Type 0} (M : Mpsc A) : Type 0 where
  pub view : M.Channel → Fifo A
  pub new : view M.unbounded_channel ≡ new_fifo
  pub sent : (a : A) (c : M.Channel) → view (M.send a c).0 ≡ fifo_send a (view c)
  pub accepted : (a : A) (c : M.Channel) → (M.send a c).1 ≡ not (view c).receiver_gone
  pub polls : (c : M.Channel) → (M.recv c).1 ≡ polled (view c).values (view c).sender_gone
  pub received :
      (c : M.Channel) → view (M.recv c).0 ≡ record (view c) { values = rest_of (view c).values }
  pub sender_dropped :
      (c : M.Channel) → view (M.drop_sender c) ≡ record (view c) { sender_gone = true }
  pub receiver_dropped :
      (c : M.Channel)
      → view (M.drop_receiver c) ≡ record (view c) { values = []; receiver_gone = true }
