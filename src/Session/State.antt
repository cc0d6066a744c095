-- ===== src/Session/State.antt =====
-- What a session keeps: handle.rs, shared.rs, dispatch.rs, driver.rs, command.rs and teardown.rs of
-- crates/mango-protocol/src/session/.
use mango_protocol.Common.{ℕ, Text, List, [], ◌∷◌, ◌++◌, Bool, false, true, Option, Result, Dict}
use mango_protocol.Libs.{Libs}
use mango_protocol.Wire.Error.{CodecError, RemoteError}
use mango_protocol.Wire.Version.{ProtocolVersion}
use mango_protocol.Wire.Frame.{Frame, PeerInfo, Limits, Event}

-- `format!`: the pieces of a message, in order.
unfoldable pub format : List Text → Text
format [] = []
format (piece ∷ pieces) = piece ++ format pieces

pub data SessionState : Type 0 where
  handshaking ready closed : SessionState

-- The derived `==` at `Ready` and at `Handshaking`, the two that the code compares with.
unfoldable pub is_ready : SessionState → Bool
is_ready ready = true
is_ready _ = false

unfoldable pub is_handshaking : SessionState → Bool
is_handshaking handshaking = true
is_handshaking _ = false

pub record RemotePeer (L : Libs) : Type 0 where
  pub peer : PeerInfo
  pub protocol : ProtocolVersion
  pub capabilities : L.Map
  pub limits : Option Limits
  pub effective_minor : ℕ

pub record SessionClosure : Type 0 where
  pub code : ℕ
  pub reason : Option Text
  pub fatal : Bool
  pub error : Option CodecError
  pub unfinished_handlers : ℕ

-- `oneshot::Sender` and the other channel ends are named by numbers.
pub data Command (L : Libs) : Type 0 where
  close : ℕ → Option Text → Command L
  request : Frame L → ℕ → Command L
  cancel : Text → Bool → Command L
  send : Frame L → Command L

pub record PendingRequest : Type 0 where
  pub method : Text
  pub reply : ℕ

-- `cancel` names the request's token.
pub record ActiveRequest : Type 0 where
  pub cancel : ℕ
  pub method : Text

-- `tasks` are the ids of the spawned handlers that have not been joined.
pub record RequestTracking : Type 0 where
  pub tasks : List ℕ
  pub active : Dict Text ActiveRequest
  pub by_task_id : Dict ℕ Text

-- A handler is named by a number; what it computes reaches the session when its task settles.
pub record Shared (L : Libs) : Type 0 where
  pub local_peer : PeerInfo
  pub local_protocol : ProtocolVersion
  pub local_capabilities : L.Map
  pub local_max_frame_bytes : ℕ
  pub max_in_flight : ℕ
  pub max_stream_keys : ℕ
  pub state : SessionState
  pub remote : Option (RemotePeer L)
  pub ready : Option (Result (RemotePeer L) (RemoteError L))
  pub closure : Option SessionClosure
  pub request_id_prefix : Text
  pub request_sequence : ℕ
  pub in_flight : ℕ
  pub handlers : Dict Text (ℕ × ℕ)
  pub next_generation : ℕ
  pub event_sequences : Dict Text ℕ
  pub event_subscribers : List ℕ
  pub pong_subscribers : List ℕ

-- The driver, with what it has done so far: the frames it enqueued for the writer, the replies it
-- sent to requesters, the tokens it cancelled and the events and pongs it passed to subscribers,
-- each in order.
pub record SessionDriver (L : Libs) : Type 0 where
  pub shared : Shared L
  pub pending : Dict Text PendingRequest
  pub tracking : RequestTracking
  pub awaiting_pong : Bool
  pub enqueued : List (Frame L)
  pub replies : List (ℕ × Result (L.Value) (RemoteError L))
  pub cancelled : List ℕ
  pub events : List (ℕ × Event L)
  pub pongs : List ℕ

pub data PortClosure : Type 0 where
  closed : Option ℕ → Option Text → PortClosure
  protocol_error : CodecError → ℕ → PortClosure

pub data Teardown : Type 0 where
  local : ℕ → Option Text → Teardown
  peer_frame : ℕ → Option Text → Teardown
  port : PortClosure → Teardown
