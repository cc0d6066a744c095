-- ===== src/Session/Open.antt =====
-- Opening a session: `Session::open` of crates/mango-protocol/src/session.rs. A panic is `none`.
pub mod Fresh
use mango_protocol.Common.{
  ℕ, ◌==◌, min, Text, List, [], ◌∷◌, if◌then◌else◌, Option, none, some, false,
}
use mango_protocol.Libs.{Libs}
use mango_protocol.Validate.Grammar.{min_announced_in_flight}
use mango_protocol.Codec.Limits.{
  check_at_least, check_max_frame_bytes, min_max_frame_bytes, default_max_frame_bytes,
}
use mango_protocol.Session.State.{SessionDriver, Shared, handshaking}
use mango_protocol.Session.Shared.{register_handler}
use mango_protocol.Session.Options.{SessionOptions, min_open_stream_keys}

-- The driver with its timers, and the grace that its teardown gives.
pub record Opened (L : Libs) : Type 0 where
  pub driver : SessionDriver L
  pub handshake_timeout : ℕ
  pub liveness_interval : Option ℕ
  pub handler_grace : ℕ

-- `ceiling.map(check)`, where the check panics or gives the ceiling back.
unfoldable pub check_ceiling : Option ℕ → Option (Option ℕ)
check_ceiling none = some none
check_ceiling (some ceiling) = elim (check_max_frame_bytes ceiling) [
  | none ↦ none
  | some checked ↦ some (some checked)
]

-- A session option narrows the port's ceiling and never replaces it.
unfoldable pub narrowed : Option ℕ → Option ℕ → ℕ
narrowed (some session) (some port) = min session port
narrowed (some only) none = only
narrowed none (some only) = only
narrowed none none = default_max_frame_bytes

-- `filter(|period| !period.is_zero())`
unfoldable pub cadence : Option ℕ → Option ℕ
cadence none = none
cadence (some period) = if period == 0 then none else some period

module _ ⦃L : Libs⦄ where
  unfoldable pub register_all : List (Text × ℕ) → Shared L → Shared L
  unfolding register_handler
  register_all [] shared = shared
  register_all ((method, handler) ∷ handlers) shared =
      register_all handlers (register_handler shared method handler).0

  abbrev pub new_shared : SessionOptions L → ℕ → ℕ → ℕ → Shared L
  new_shared options local_max_frame_bytes max_in_flight max_stream_keys = record {
    local_peer = options.peer;
    local_protocol = options.protocol;
    local_capabilities = options.capabilities;
    local_max_frame_bytes = local_max_frame_bytes;
    max_in_flight = max_in_flight;
    max_stream_keys = max_stream_keys;
    state = handshaking;
    remote = none;
    ready = none;
    closure = none;
    request_id_prefix = options.request_id_prefix;
    request_sequence = 0;
    in_flight = 0;
    handlers = [];
    next_generation = 0;
    event_sequences = [];
    event_subscribers = [];
    pong_subscribers = [];
  }

  abbrev pub opened : SessionOptions L → Shared L → Opened L
  opened options shared = record {
    driver = record {
      shared = register_all options.handlers shared;
      pending = [];
      tracking = record { tasks = []; active = []; by_task_id = [] };
      awaiting_pong = false;
      enqueued = [];
      replies = [];
      cancelled = [];
      events = [];
      pongs = [];
    };
    handshake_timeout = options.handshake_timeout;
    liveness_interval = cadence options.liveness_interval;
    handler_grace = options.handler_grace;
  }

  -- `Session::open` on a port with this ceiling
  unfoldable pub open_session : Option ℕ → SessionOptions L → Option (Opened L)
  open_session port_max_frame_bytes options = elim (check_ceiling options.max_frame_bytes) [
    | none ↦ none
    | some session_ceiling ↦ elim (check_ceiling port_max_frame_bytes) [
      | none ↦ none
      | some port_ceiling ↦ elim (check_at_least options.max_in_flight min_announced_in_flight) [
        | none ↦ none
        | some max_in_flight ↦ elim (check_at_least options.max_stream_keys min_open_stream_keys) [
          | none ↦ none
          | some max_stream_keys ↦ some (
              opened options (
                new_shared options (narrowed session_ceiling port_ceiling) max_in_flight
                  max_stream_keys))
        ]
      ]
    ]
  ]
