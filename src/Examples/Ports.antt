-- ===== src/Examples/Ports.antt =====
-- An in-process pair over a channel that is a list.
use mango_protocol.Common.{◌≡◌, refl, [], ◌∷◌, not, none, some, Bool}
use mango_protocol.Wire.Frame.{Frame}
use mango_protocol.Port.Channel.{Mpsc, Fifo, IsFifo, new_fifo, fifo_send, polled, rest_of}
use mango_protocol.Port.Pipe.{Use, pipe_run, new_pipe}
use mango_protocol.Port.Pair.{
  WireMessage, MemoryPort, MemoryPortOptions, half, a_to_b, b_to_a, port_pair_with, direction,
  direction_run,
}
use mango_protocol.Port.Pair.Refine.{takes, direction_run-pipe_run}
use mango_protocol.Examples.{toy_libs, toy_serde, toy_IsCompact, toy_ReadsBack-ping}
use mango_protocol.Common.{List}

abbrev toy_mpsc : Mpsc (WireMessage toy_libs)
toy_mpsc = record {
  Channel = Fifo (WireMessage toy_libs);
  unbounded_channel = new_fifo;
  send = λ a q. (fifo_send a q, not q.receiver_gone);
  recv = λ q. (record q { values = rest_of q.values }, polled q.values q.sender_gone);
  drop_sender = λ q. record q { sender_gone = Bool.true };
  drop_receiver = λ q. record q { values = []; receiver_gone = Bool.true };
}

toy_IsFifo : IsFifo toy_mpsc
toy_IsFifo = record {
  view = λ q. q;
  new = refl;
  sent = λ a q. refl;
  accepted = λ a q. refl;
  polls = λ q. refl;
  received = λ q. refl;
  sender_dropped = λ q. refl;
  receiver_dropped = λ q. refl;
}

abbrev options : MemoryPortOptions
options = record { max_frame_bytes = none; validate_frames = Bool.true }

abbrev a : MemoryPort
a = half options a_to_b b_to_a

abbrev b : MemoryPort
b = half options b_to_a a_to_b

abbrev uses : List (Use toy_libs)
uses = Use.send Frame.ping ∷ Use.close 4000 none ∷ Use.recv ∷ Use.recv ∷ Use.recv ∷ []

paired : port_pair_with options ≡ some (a, b)
unfolding port_pair_with
paired = refl

direction_run-pipe_run_example :
    (direction_run toy_mpsc (direction toy_mpsc a b) uses ≡ pipe_run (takes options) new_pipe uses)
    × (direction_run toy_mpsc (direction toy_mpsc b a) uses
        ≡ pipe_run (takes options) new_pipe uses)
direction_run-pipe_run_example =
    direction_run-pipe_run toy_mpsc toy_IsFifo options a b uses toy_IsCompact
      (toy_ReadsBack-ping, (tt, (tt, (tt, (tt, tt))))) paired
