-- ===== src/Session/Options.antt =====
-- How a session is set up: crates/mango-protocol/src/session/options.rs. A panic is `none`, and a
-- `Duration` its nanoseconds.
use mango_protocol.Common.{ℕ, ◌*◌, Text, List, [], ◌∷◌, ◌++◌, Option, none, some}
use mango_protocol.Libs.{Libs}
use mango_protocol.Wire.Error.{lit}
use mango_protocol.Wire.Version.{ProtocolVersion, protocol_version}
use mango_protocol.Wire.Frame.{PeerInfo}
use mango_protocol.Validate.Grammar.{min_announced_in_flight}
use mango_protocol.Codec.Limits.{check_at_least, check_max_frame_bytes}
use mango_protocol.Session.Shared.{default_max_in_flight}

-- `Duration::from_secs`
abbrev pub from_secs : ℕ → ℕ
from_secs seconds = seconds * 1000000000

abbrev pub default_max_stream_keys : ℕ
default_max_stream_keys = 1024

abbrev pub min_open_stream_keys : ℕ
min_open_stream_keys = 1

-- A setter behind a check that panics.
abbrev pub set_checked : {A : Type 0} → (ℕ → A) → Option ℕ → Option A
set_checked set none = none
set_checked set (some checked) = some (set checked)

pub record SessionOptions (L : Libs) : Type 0 where
  pub peer : PeerInfo
  pub capabilities : L.Map
  pub protocol : ProtocolVersion
  pub max_frame_bytes : Option ℕ
  pub max_in_flight : ℕ
  pub max_stream_keys : ℕ
  pub handshake_timeout : ℕ
  pub liveness_interval : Option ℕ
  pub request_id_prefix : Text
  pub handler_grace : ℕ
  pub handlers : List (Text × ℕ)

module _ ⦃L : Libs⦄ where
  -- `SessionOptions::new`
  abbrev pub new_options : PeerInfo → SessionOptions L
  new_options peer = record {
    peer = peer;
    capabilities = L.empty_map;
    protocol = protocol_version;
    max_frame_bytes = none;
    max_in_flight = default_max_in_flight;
    max_stream_keys = default_max_stream_keys;
    handshake_timeout = from_secs 15;
    liveness_interval = some (from_secs 20);
    request_id_prefix = lit "r";
    handler_grace = from_secs 5;
    handlers = [];
  }

  abbrev pub with_hello_capabilities : SessionOptions L → L.Map → SessionOptions L
  with_hello_capabilities options capabilities = record options { capabilities = capabilities }

  abbrev pub with_hello_protocol : SessionOptions L → ProtocolVersion → SessionOptions L
  with_hello_protocol options protocol = record options { protocol = protocol }

  abbrev pub with_announced_frame_bytes : SessionOptions L → ℕ → Option (SessionOptions L)
  with_announced_frame_bytes options max_frame_bytes =
      set_checked (λ checked. record options { max_frame_bytes = some checked })
        (check_max_frame_bytes max_frame_bytes)

  abbrev pub with_max_in_flight : SessionOptions L → ℕ → Option (SessionOptions L)
  with_max_in_flight options max_in_flight =
      set_checked (λ checked. record options { max_in_flight = checked })
        (check_at_least max_in_flight min_announced_in_flight)

  abbrev pub with_max_stream_keys : SessionOptions L → ℕ → Option (SessionOptions L)
  with_max_stream_keys options max_stream_keys =
      set_checked (λ checked. record options { max_stream_keys = checked })
        (check_at_least max_stream_keys min_open_stream_keys)

  abbrev pub with_handshake_timeout : SessionOptions L → ℕ → SessionOptions L
  with_handshake_timeout options handshake_timeout = record options {
    handshake_timeout = handshake_timeout;
  }

  abbrev pub with_liveness_interval : SessionOptions L → Option ℕ → SessionOptions L
  with_liveness_interval options liveness_interval = record options {
    liveness_interval = liveness_interval;
  }

  abbrev pub with_request_id_prefix : SessionOptions L → Text → SessionOptions L
  with_request_id_prefix options request_id_prefix = record options {
    request_id_prefix = request_id_prefix;
  }

  abbrev pub with_handler_grace : SessionOptions L → ℕ → SessionOptions L
  with_handler_grace options handler_grace = record options { handler_grace = handler_grace }

  -- `SessionOptions::handle`
  abbrev pub with_handler : SessionOptions L → Text → ℕ → SessionOptions L
  with_handler options method handler = record options {
    handlers = options.handlers ++ (method, handler) ∷ [];
  }
