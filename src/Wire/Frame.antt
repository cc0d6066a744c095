-- ===== src/Wire/Frame.antt =====
-- The frame types: crates/mango-protocol/src/frame.rs. JSON values and maps are the library's.
use mango_protocol.Common.{ℕ, Text, Option}
use mango_protocol.Libs.{Libs}
use mango_protocol.Wire.Error.{lit}
use mango_protocol.Wire.Version.{ProtocolVersion}

-- The `end` marker, whose only JSON value is `true`.
pub data End : Type 0 where
  end : End

pub record PeerInfo : Type 0 where
  pub name : Text
  pub version : Text
  pub role : Text

pub record Limits : Type 0 where
  pub max_frame_bytes : Option ℕ
  pub max_in_flight : Option ℕ

pub record Hello (L : Libs) : Type 0 where
  pub protocol : ProtocolVersion
  pub peer : PeerInfo
  pub capabilities : L.Map
  pub limits : Option Limits

pub record Request (L : Libs) : Type 0 where
  pub id : Text
  pub method : Text
  pub params : L.Value

pub record Response (L : Libs) : Type 0 where
  pub id : Text
  pub result : L.Value

pub record ErrorPayload (L : Libs) : Type 0 where
  pub code : Text
  pub message : Text
  pub details : Option (L.Map)

pub record ErrorResponse (L : Libs) : Type 0 where
  pub id : Text
  pub error : ErrorPayload L

pub record Event (L : Libs) : Type 0 where
  pub topic : Text
  pub seq : ℕ
  pub stream_id : Option (Text)
  pub payload : L.Value
  pub ends : Option End

pub record Cancel : Type 0 where
  pub id : Text

pub record Close : Type 0 where
  pub code : ℕ
  pub reason : Option (Text)

pub data Frame (L : Libs) : Type 0 where
  hello : Hello L → Frame L
  req : Request L → Frame L
  res : Response L → Frame L
  err : ErrorResponse L → Frame L
  evt : Event L → Frame L
  cancel : Cancel → Frame L
  ping pong : Frame L
  close : Close → Frame L

unfoldable pub type_name : {L : Libs} → Frame L → Text
type_name (hello h) = lit "hello"
type_name (req r) = lit "req"
type_name (res r) = lit "res"
type_name (err e) = lit "err"
type_name (evt e) = lit "evt"
type_name (cancel c) = lit "cancel"
type_name ping = lit "ping"
type_name pong = lit "pong"
type_name (close c) = lit "close"
