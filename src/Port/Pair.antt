-- ===== src/Port/Pair.antt =====
-- The in-process pair: crates/mango-protocol/src/port/pair.rs. The channels are named by numbers.
pub mod Relation
pub mod Refine
use mango_protocol.Common.{
  ℕ, Text, List, [], ◌∷◌, Bool, true, false, Option, none, some, Result, ok, err, ◌>>=◌,
  if◌then◌else◌,
}
use mango_protocol.Libs.{Libs}
use mango_protocol.Wire.Error.{CodecError}
use mango_protocol.Wire.Frame.{Frame}
use mango_protocol.Codec.Limits.{check_max_frame_bytes, default_max_frame_bytes}
use mango_protocol.Codec.Serde.{Serde}
use mango_protocol.Codec.Ndjson.{encode_frame_bytes, decode_line}
use mango_protocol.Session.State.{PortClosure}
use mango_protocol.Session.Driver.{SendOutcome, sent}
use mango_protocol.Port.{Inbound}
use mango_protocol.Port.Channel.{Mpsc, Poll, pending, ready}
use mango_protocol.Port.Pipe.{Use, Seen, outcome, received, nothing, unusable}

pub record MemoryPortOptions : Type 0 where
  pub max_frame_bytes : Option ℕ
  pub validate_frames : Bool

pub data WireMessage (L : Libs) : Type 0 where
  frame : Frame L → WireMessage L
  close : ℕ → Option Text → WireMessage L

pub record MemoryPort : Type 0 where
  pub max_frame_bytes : Option ℕ
  pub validate_frames : Bool
  pub sender : ℕ
  pub receiver : ℕ

pub record MemoryPortTx : Type 0 where
  pub max_frame_bytes : Option ℕ
  pub validate_frames : Bool
  pub sender : ℕ

pub record MemoryPortRx : Type 0 where
  pub receiver : ℕ
  pub terminal : Bool

abbrev pub a_to_b : ℕ
a_to_b = 0

abbrev pub b_to_a : ℕ
b_to_a = 1

-- The panic of a ceiling below the floor is `none`.
unfoldable pub check_option : Option ℕ → Option ℕ
check_option none = some 0
check_option (some max_frame_bytes) = check_max_frame_bytes max_frame_bytes

abbrev pub half : MemoryPortOptions → ℕ → ℕ → MemoryPort
half options sender receiver = record {
  max_frame_bytes = options.max_frame_bytes;
  validate_frames = options.validate_frames;
  sender = sender;
  receiver = receiver;
}

unfoldable pub port_pair_with : MemoryPortOptions → Option (MemoryPort × MemoryPort)
unfolding check_option
port_pair_with options = elim (check_option options.max_frame_bytes) [
  | none ↦ none
  | some _ ↦ some (half options a_to_b b_to_a, half options b_to_a a_to_b)
]

unfoldable pub port_pair : Option (MemoryPort × MemoryPort)
port_pair = port_pair_with (record { max_frame_bytes = none; validate_frames = false })

unfoldable pub split : MemoryPort → MemoryPortTx × MemoryPortRx
split port = (
  record {
    max_frame_bytes = port.max_frame_bytes;
    validate_frames = port.validate_frames;
    sender = port.sender;
  },
  record { receiver = port.receiver; terminal = false },
)

unfoldable pub unwrap_or : Option ℕ → ℕ → ℕ
unwrap_or none n = n
unwrap_or (some m) n = m

-- `Ok` or `Err` of the channel
unfoldable pub outcome_of_send : Bool → SendOutcome
outcome_of_send true = sent
outcome_of_send false = SendOutcome.closed

module _ {L : Libs} where
  -- What the receiver makes of a message, and whether it is the last one.
  unfoldable pub inbound_of : Option (WireMessage L) → Inbound L
  inbound_of none = Inbound.closed (PortClosure.closed none none)
  inbound_of (some (WireMessage.frame f)) = Inbound.frame f
  inbound_of (some (WireMessage.close code reason)) =
      Inbound.closed (PortClosure.closed (some code) reason)

  unfoldable pub ends : Option (WireMessage L) → Bool
  ends none = true
  ends (some (WireMessage.frame f)) = false
  ends (some (WireMessage.close code reason)) = true

  module _ (M : Mpsc (WireMessage L)) where
    unfoldable pub forward : WireMessage L → M.Channel → M.Channel × SendOutcome
    unfolding outcome_of_send
    forward message c = let (c', accepted) = M.send message c in (c', outcome_of_send accepted)

    -- `MemoryPortTx::close`, which consumes the half and so drops the sender.
    unfoldable pub close_tx : ℕ → Option Text → M.Channel → M.Channel
    close_tx code reason c = M.drop_sender (M.send (WireMessage.close code reason) c).0

    -- What `recv` does with what the channel gave.
    unfoldable pub take_in :
        MemoryPortRx
        → M.Channel
        → Poll (WireMessage L)
        → MemoryPortRx × (M.Channel × Poll (Inbound L))
    unfolding ends inbound_of
    take_in rx c pending = (rx, (c, pending))
    take_in rx c (ready message) = (
      if ends message then record rx { terminal = true } else rx,
      (c, ready (some (inbound_of message))),
    )

    unfoldable pub recv_rx :
        MemoryPortRx → M.Channel → MemoryPortRx × (M.Channel × Poll (Inbound L))
    unfolding take_in
    recv_rx rx c =
        if rx.terminal
        then (rx, (c, ready none))
        else let (c', polled) = M.recv c in take_in rx c' polled

    -- `send` with the frame that crosses or its refusal
    unfoldable pub send_carried : Result (Frame L) CodecError → M.Channel → M.Channel × SendOutcome
    unfolding forward
    send_carried (err error) c = (c, SendOutcome.refused error)
    send_carried (ok roundtripped) c = forward (WireMessage.frame roundtripped) c

    -- One direction of a pair: the half that sends, the half that receives and their channel. A
    -- half that was closed or dropped is `none`.
    pub record Direction : Type 0 where
      pub tx : Option MemoryPortTx
      pub rx : Option MemoryPortRx
      pub channel : M.Channel

    abbrev pub direction : MemoryPort → MemoryPort → Direction
    direction from_port to_port = record {
      tx = some (split from_port).0;
      rx = some (split to_port).1;
      channel = M.unbounded_channel;
    }

module _ ⦃L : Libs⦄ ⦃S : Serde L⦄ where
  -- A frame through the byte codec and back.
  unfoldable pub roundtrip : Frame L → ℕ → Result (Frame L) CodecError
  roundtrip f max_frame_bytes = do
    bytes ← encode_frame_bytes f max_frame_bytes
    decode_line bytes max_frame_bytes

  -- The frame that crosses, or the refusal.
  unfoldable pub carried : MemoryPortTx → Frame L → Result (Frame L) CodecError
  unfolding roundtrip unwrap_or
  carried tx f =
      if tx.validate_frames
      then roundtrip f (unwrap_or tx.max_frame_bytes default_max_frame_bytes)
      else ok f

  module _ (M : Mpsc (WireMessage L)) where
    unfoldable pub send_tx : MemoryPortTx → Frame L → M.Channel → M.Channel × SendOutcome
    unfolding carried send_carried
    send_tx tx f c = send_carried M (carried tx f) c

    unfoldable pub direction_use : Use L → Direction M → Direction M × Seen L
    unfolding send_tx recv_rx close_tx
    direction_use (Use.send f) d = elim d.tx [
      | none ↦ (d, unusable)
      | some tx ↦ let (c, o) = send_tx tx f d.channel in (record d { channel = c }, outcome o)
    ]
    direction_use (Use.close code reason) d = elim d.tx [
      | none ↦ (d, unusable)
      | some tx ↦ (record d { tx = none; channel = close_tx M code reason d.channel }, nothing)
    ]
    direction_use Use.drop_tx d = elim d.tx [
      | none ↦ (d, unusable)
      | some tx ↦ (record d { tx = none; channel = M.drop_sender d.channel }, nothing)
    ]
    direction_use Use.recv d = elim d.rx [
      | none ↦ (d, unusable)
      | some rx ↦
          let (rx', (c, polled)) = recv_rx M rx d.channel in
          (record d { rx = some rx'; channel = c }, received polled)
    ]
    direction_use Use.drop_rx d = elim d.rx [
      | none ↦ (d, unusable)
      | some rx ↦ (record d { rx = none; channel = M.drop_receiver d.channel }, nothing)
    ]

    unfoldable pub direction_run : Direction M → List (Use L) → List (Seen L)
    direction_run d [] = []
    direction_run d (u ∷ uses) = let (d', seen) = direction_use u d in seen ∷ direction_run d' uses
