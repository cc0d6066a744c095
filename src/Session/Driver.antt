-- ===== src/Session/Driver.antt =====
-- The driver's loop: crates/mango-protocol/src/session/driver.rs. Each branch of the `select!` is an
-- event, and `step` is one round of the loop; which event comes next is up to the runtime.
pub mod Runs
pub mod Quiet
pub mod Tracking
pub mod Handshake
use mango_protocol.Common.{
  ℕ, ◌+◌, ◌-◌, Text, List, [], ◌∷◌, ◌++◌, Bool, true, false, not, ◌==◌, ltb, Option, none, some,
  if◌then◌else◌, Result, ok, err, get, insert, remove, list_eq,
}
use mango_protocol.Libs.{Libs}
use mango_protocol.Wire.Error.{
  lit, CodecError, RemoteError, remote_error, with_details, with_detail, codec_error_text,
}
use mango_protocol.Wire.Close.{released, protocol_error}
use mango_protocol.Wire.Version.{negotiate, compatible, mismatch}
use mango_protocol.Wire.Frame.{Frame, Hello, Request, Limits, ErrorResponse}
use mango_protocol.Codec.Serde.{Serde}
use mango_protocol.Codec.Limits.{default_max_frame_bytes}
use mango_protocol.Session.State.{
  format, RemotePeer, Shared, SessionDriver, Command, Teardown, local, peer_frame, port,
  PortClosure, is_ready, is_handshaking, ready, PendingRequest,
}
use mango_protocol.Session.Shared.{settle_ready, fan_out_event, fan_out_pong, default_max_in_flight}
use mango_protocol.Session.Dispatch.{
  JoinError, Spawned, enqueue, on_request, on_cancel, on_handler_settled,
}

-- `SendOutcome`
pub data SendOutcome : Type 0 where
  sent closed : SendOutcome
  refused : CodecError → SendOutcome

-- `on_send_failure`; `none` is the `RecvError` of a writer that ended.
unfoldable pub on_send_failure : Option SendOutcome → Teardown
on_send_failure (some (refused error)) =
    local released (some (lit "the transport refused a frame: " ++ codec_error_text error))
on_send_failure (some _) = local released (some (lit "the transport is gone"))
on_send_failure none = local released (some (lit "the writer task ended"))

abbrev pub handshake_timeout_reason : Text
unfolding lit
handshake_timeout_reason = lit "handshake timeout"

-- `Limits` are announced only where one of them is.
unfoldable pub announced : Option ℕ → Option ℕ → Option Limits
announced none none = none
announced (some bytes) in_flight =
    some (record { max_frame_bytes = some bytes; max_in_flight = in_flight })
announced none (some count) = some (record { max_frame_bytes = none; max_in_flight = some count })

module _ ⦃L : Libs⦄ where
  unfoldable pub build_hello : Shared L → Hello L
  unfolding announced
  build_hello shared = record {
    protocol = shared.local_protocol;
    peer = shared.local_peer;
    capabilities = shared.local_capabilities;
    limits =
        announced
          (if ltb shared.local_max_frame_bytes default_max_frame_bytes
            then some shared.local_max_frame_bytes
            else none)
          (if not (shared.max_in_flight == default_max_in_flight)
            then some shared.max_in_flight
            else none);
  }

  unfoldable pub refused_hello : SendOutcome → Option (RemoteError L)
  refused_hello sent = none
  refused_hello (refused error) = some (
      remote_error (lit "UNAVAILABLE")
        (lit "The transport refused the hello: " ++ codec_error_text error))
  refused_hello SendOutcome.closed = some (
      remote_error (lit "UNAVAILABLE")
        (lit "The transport refused the hello: " ++ lit "the port is already closed"))

  unfoldable pub mismatch_error : Shared L → Hello L → ℕ → RemoteError L
  mismatch_error shared hello close_code =
      with_detail
        (with_detail
          (with_detail
            (remote_error (lit "PROTOCOL_MISMATCH") (
              format (
                lit "Peer \""
                ∷ hello.peer.name
                ∷ lit "\" speaks wire major "
                ∷ L.display hello.protocol.major
                ∷ lit "; this session speaks major "
                ∷ L.display shared.local_protocol.major
                ∷ lit "."
                ∷ [])))
            (lit "local_major") (L.number_value shared.local_protocol.major))
          (lit "remote_major") (L.number_value hello.protocol.major))
        (lit "close_code") (L.number_value close_code)

  abbrev pub remote_peer : Hello L → ℕ → RemotePeer L
  remote_peer hello effective_minor = record {
    peer = hello.peer;
    protocol = hello.protocol;
    capabilities = hello.capabilities;
    limits = hello.limits;
    effective_minor = effective_minor;
  }

  unfoldable pub on_hello : SessionDriver L → Hello L → SessionDriver L × Option Teardown
  unfolding is_handshaking settle_ready mismatch_error
  on_hello d hello =
      if not (is_handshaking d.shared.state)
      then (d, some (local protocol_error (some (lit "duplicate hello"))))
      else elim (negotiate d.shared.local_protocol hello.protocol) [
        | mismatch close_code ↦ (
          record d {
            shared = settle_ready (err (mismatch_error d.shared hello close_code)) d.shared;
          },
          some (local close_code (some (lit "protocol version unsupported"))),
        )
        | compatible effective_minor ↦ (
          record d {
            shared = settle_ready (ok (remote_peer hello effective_minor)) (record d.shared {
              state = ready;
              remote = some (remote_peer hello effective_minor);
            });
          },
          none,
        )
      ]

  unfoldable pub on_response :
      SessionDriver L → Text → Result (L.Value) (RemoteError L) → SessionDriver L
  on_response d id result = elim (get id d.pending) [
    | none ↦ d
    | some request ↦ record d {
      pending = remove id d.pending;
      replies = d.replies ++ (request.reply, result) ∷ [];
    }
  ]

  -- `if let Frame::Req(request) = &frame`
  unfoldable pub expect_reply : SessionDriver L → Frame L → ℕ → SessionDriver L
  expect_reply d (Frame.req request) reply = record d {
    pending = insert request.id (record { method = request.method; reply = reply }) d.pending;
  }
  expect_reply d _ reply = d

  unfoldable pub on_command : SessionDriver L → Command L → SessionDriver L × Option Teardown
  unfolding expect_reply enqueue
  on_command d (Command.close code reason) = (d, some (local code reason))
  on_command d (Command.request frame reply) = (enqueue (expect_reply d frame reply) frame, none)
  on_command d (Command.cancel id forget) = (
    enqueue (if not forget then record d { pending = remove id d.pending } else d)
        (Frame.cancel (record { id = id })),
    none,
  )
  on_command d (Command.send frame) = (enqueue d frame, none)

  unfoldable pub on_liveness_tick : SessionDriver L → SessionDriver L × Option Teardown
  unfolding enqueue
  on_liveness_tick d =
      if d.awaiting_pong
      then (d, some (local released (some (lit "liveness timeout"))))
      else (enqueue (record d { awaiting_pong = true }) Frame.ping, none)

  unfoldable pub handshake_error : ℕ → RemoteError L
  handshake_error millis =
      with_detail
        (remote_error (lit "UNAVAILABLE")
          (format (lit "The peer did not send hello within " ∷ L.display millis ∷ lit "ms." ∷ [])))
        (lit "timeout_ms") (L.number_value millis)

  unfoldable pub on_handshake_timeout : SessionDriver L → ℕ → SessionDriver L × Teardown
  unfolding handshake_error settle_ready
  on_handshake_timeout d millis = (
    record d { shared = settle_ready (err (handshake_error millis)) d.shared },
    local protocol_error (some handshake_timeout_reason),
  )

  unfoldable pub error_of : ErrorResponse L → RemoteError L
  error_of response = elim response.error.details [
    | none ↦ remote_error response.error.code response.error.message
    | some details ↦ with_details (remote_error response.error.code response.error.message) details
  ]

  -- `alive` tells which subscribers still listen, and `spawned` is what spawning a handler gives.
  unfoldable pub on_frame :
      SessionDriver L → Frame L → (ℕ → Bool) → Spawned → SessionDriver L × Option Teardown
  unfolding on_hello on_request on_response error_of fan_out_event fan_out_pong on_cancel enqueue
  on_frame d (Frame.hello hello) alive spawned = on_hello d hello
  on_frame d (Frame.close close) alive spawned = (d, some (peer_frame close.code close.reason))
  on_frame d (Frame.req request) alive spawned = (on_request d request spawned, none)
  on_frame d (Frame.res response) alive spawned =
      (on_response d response.id (ok response.result), none)
  on_frame d (Frame.err response) alive spawned =
      (on_response d response.id (err (error_of response)), none)
  on_frame d (Frame.evt event) alive spawned = (fan_out_event alive d event, none)
  on_frame d (Frame.cancel cancel) alive spawned = (on_cancel d cancel.id, none)
  on_frame d Frame.ping alive spawned = (enqueue d Frame.pong, none)
  on_frame d Frame.pong alive spawned =
      (fan_out_pong alive (record d { awaiting_pong = false }), none)

-- What one round of the `select!` can wake on.
pub data Event (L : Libs) : Type 0 where
  send_failed : Option SendOutcome → Event L
  handshake_timeout : ℕ → Event L
  liveness_tick : Event L
  handler_settled : ℕ → Result (Result (L.Value) (RemoteError L)) JoinError → Event L
  command : Command L → Event L
  inbound : Frame L → (ℕ → Bool) → Spawned → Event L
  inbound_closed : PortClosure → Event L
  inbound_ended : Event L

module _ ⦃L : Libs⦄ ⦃S : Serde L⦄ where
  unfoldable pub step : SessionDriver L → Event L → SessionDriver L × Option Teardown
  unfolding on_frame on_command on_liveness_tick on_handler_settled on_handshake_timeout
      on_send_failure
  step d (send_failed outcome) = (d, some (on_send_failure outcome))
  step d (handshake_timeout millis) =
      let (d', reason) = on_handshake_timeout d millis in (d', some reason)
  step d liveness_tick = on_liveness_tick d
  step d (handler_settled task outcome) = (on_handler_settled d task outcome, none)
  step d (command c) = on_command d c
  step d (inbound frame alive spawned) = on_frame d frame alive spawned
  step d (inbound_closed closure) = (d, some (port closure))
  step d inbound_ended = (d, some (port (PortClosure.closed none none)))
