-- ===== src/Port.antt =====
-- The seam between a session and what carries its frames: crates/mango-protocol/src/port.rs.
pub mod Channel
pub mod Pipe
pub mod Pair
use mango_protocol.Libs.{Libs}
use mango_protocol.Wire.Frame.{Frame}
use mango_protocol.Session.State.{PortClosure}

pub data Inbound (L : Libs) : Type 0 where
  frame : Frame L → Inbound L
  closed : PortClosure → Inbound L
