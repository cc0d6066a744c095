-- ===== src/Examples/Sessions.antt =====
-- A session that answers one request while another one waits.
use mango_protocol.Common.{
  ◌≢◌, list_eq, ◌+◌, ◌≤◌, ◌≡◌, refl, Text, [], ◌∷◌, true, false, none, some, ok, arith, length,
  text_eq, get, starts_with,
}
use mango_protocol.Wire.Close.{contains}
use mango_protocol.Wire.Version.{negotiate}
use mango_protocol.Wire.Frame.{Frame}
use mango_protocol.Validate.Grammar.{is_reserved_method_name, rpc_reserved_prefix}
use mango_protocol.Session.State.{SessionDriver, Shared, handshaking, ready, local, RemotePeer}
use mango_protocol.Session.Dispatch.Linked.{idle}
use mango_protocol.Session.Dispatch.Accounts.{IsTracking, accounted}
use mango_protocol.Session.Driver.{Event, inbound, step}
use mango_protocol.Session.Driver.Runs.{Run, start, round, requests, enabled}
use mango_protocol.Session.Driver.Handshake.{Agreed, view, Run-Agreed}
use mango_protocol.Session.Driver.Tracking.{Run-accounted}
use mango_protocol.Session.Teardown.{teardown}
use mango_protocol.Session.Teardown.Settlement.{IsSettled, teardown-IsSettled}
use mango_protocol.Session.Handlers.{handle, drop_guard, persist}
use mango_protocol.Session.Handlers.Guards.{drop_guard-handle}
use mango_protocol.Session.Emit.{EventInput}
use mango_protocol.Examples.{toy_libs, toy_serde}

abbrev remote : RemotePeer toy_libs
remote = record {
  peer = record { name = []; version = []; role = [] };
  protocol = record { major = 1; minor = 1 };
  capabilities = [];
  limits = none;
  effective_minor = 1;
}

abbrev pub shared : Shared toy_libs
shared = record {
  local_peer = record { name = []; version = []; role = [] };
  local_protocol = record { major = 1; minor = 1 };
  local_capabilities = [];
  local_max_frame_bytes = 4096;
  max_in_flight = 2;
  max_stream_keys = 1;
  state = ready;
  remote = some remote;
  ready = some (ok remote);
  closure = none;
  request_id_prefix = [];
  request_sequence = 0;
  in_flight = 0;
  handlers = (1 ∷ [], (0, 7)) ∷ [];
  next_generation = 1;
  event_sequences = [];
  event_subscribers = [];
  pong_subscribers = [];
}

abbrev driver : SessionDriver toy_libs
driver = record {
  shared = shared;
  pending = (5 ∷ [], record { method = []; reply = 3 }) ∷ [];
  tracking = record { tasks = []; active = []; by_task_id = [] };
  awaiting_pong = false;
  enqueued = [];
  replies = [];
  cancelled = [];
  events = [];
  pongs = [];
}

driver-IsTracking : IsTracking driver
driver-IsTracking = record {
  linked = idle;
  counted = refl;
  agreed = omega arith;
  machine = omega arith;
}

-- A request of the registered method, and one of a method without a handler.
abbrev served : Event toy_libs
served =
    inbound (Frame.req (record { id = 9 ∷ []; method = 1 ∷ []; params = [] })) (λ n. true)
      (record { task = 4; cancel = 40 })

abbrev unserved : Event toy_libs
unserved =
    inbound (Frame.req (record { id = 8 ∷ []; method = 2 ∷ []; params = [] })) (λ n. true)
      (record { task = 5; cancel = 50 })

abbrev after : SessionDriver toy_libs
unfolding step
after = (step (step driver unserved).0 served).0

served-Run : Run driver after (served ∷ unserved ∷ [])
unfolding enabled step contains get is_reserved_method_name starts_with rpc_reserved_prefix text_eq
served-Run =
    round (step driver unserved).0 (unserved ∷ []) served (round driver [] unserved start refl refl)
      refl refl

Run-accounted_example :
    IsTracking after
    × ((id : Text)
        → accounted id after ≡ accounted id driver + requests id (served ∷ unserved ∷ []))
Run-accounted_example =
    Run-accounted driver after (served ∷ unserved ∷ []) driver-IsTracking served-Run

teardown-IsSettled_example :
    IsSettled driver (local 4000 none) (teardown driver (local 4000 none) (λ n. true) true).0
    × ((teardown driver (local 4000 none) (λ n. true) true).0.shared.closure
        ≡ some (teardown driver (local 4000 none) (λ n. true) true).1.0)
    × ((teardown driver (local 4000 none) (λ n. true) true).1.0.unfinished_handlers
        ≤ length driver.tracking.tasks)
    × ((teardown driver (local 4000 none) (λ n. true) true).1.1 ≡ some (4000, none))
teardown-IsSettled_example = teardown-IsSettled driver (local 4000 none) (λ n. true) true

abbrev input : EventInput toy_libs
input = record { topic = 97 ∷ 46 ∷ 98 ∷ []; payload = []; stream_id = some (6 ∷ []); ends = false }

-- The session after four events on the stream.
abbrev counting : Shared toy_libs
counting = record shared { event_sequences = (6 ∷ [], 4) ∷ [] }

-- The same session before the peer's hello, and the hello.
abbrev waiting : SessionDriver toy_libs
waiting = record driver {
  shared = record shared { state = handshaking; remote = none; ready = none };
}

abbrev greeted : Event toy_libs
greeted =
    inbound
      (Frame.hello (record {
        protocol = record { major = 1; minor = 0 };
        peer = record { name = 97 ∷ []; version = 98 ∷ []; role = 99 ∷ [] };
        capabilities = [];
        limits = none;
      }))
      (λ n. true) (record { task = 6; cancel = 60 })

greeted-Run : Run waiting (step waiting greeted).0 (greeted ∷ [])
unfolding enabled step contains negotiate
greeted-Run = round waiting [] greeted start refl refl

Run-Agreed_example : Agreed (view (step waiting greeted).0)
Run-Agreed_example =
    Run-Agreed waiting (step waiting greeted).0 (greeted ∷ []) (refl, refl) greeted-Run

greeted_ready : (step waiting greeted).0.shared.state ≡ ready
unfolding step negotiate
greeted_ready = refl

drop_guard-handle_example :
    (get (3 ∷ []) (handle shared (3 ∷ []) 11).0.handlers ≡ some (1, 11))
    × (get
          (3 ∷ [])
          (drop_guard (handle shared (3 ∷ []) 11).1 (handle shared (3 ∷ []) 11).0).handlers
        ≡ none)
    × ((other : Text)
        → (3 ∷ []) ≢ other
        → get other
            (drop_guard (handle shared (3 ∷ []) 11).1 (handle shared (3 ∷ []) 11).0).handlers
          ≡ get other shared.handlers)
    × (drop_guard (handle shared (3 ∷ []) 11).1 (handle (handle shared (3 ∷ []) 11).0 (3 ∷ []) 12).0
        ≡ (handle (handle shared (3 ∷ []) 11).0 (3 ∷ []) 12).0)
    × ((t : Shared toy_libs) → drop_guard (persist (handle shared (3 ∷ []) 11).1) t ≡ t)
drop_guard-handle_example = drop_guard-handle shared (3 ∷ []) 11 12 (omega arith)
