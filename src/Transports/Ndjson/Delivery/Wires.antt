-- ===== src/Transports/Ndjson/Delivery/Wires.antt =====
-- From one shared writer to the receive half at the other end.
use mango_protocol.Libs.{Libs}
use mango_protocol.Codec.Serde.{Serde}
