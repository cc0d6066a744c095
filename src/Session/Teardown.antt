-- ===== src/Session/Teardown.antt =====
-- The one teardown: crates/mango-protocol/src/session/teardown.rs.
pub mod Settlement
use mango_protocol.Common.{
  ℕ, Text, List, [], ◌∷◌, ◌++◌, Bool, true, false, not, ◌&&◌, ◌==◌, length, map, Option, none, some,
  if◌then◌else◌, Result, ok, err, Dict,
}
use mango_protocol.Libs.{Libs}
use mango_protocol.Wire.Error.{
  lit, CodecError, RemoteError, remote_error, with_detail, codec_error_text,
}
use mango_protocol.Wire.Close.{released, protocol_mismatch, is_fatal_close_code}
use mango_protocol.Session.State.{
  format, SessionDriver, SessionClosure, Teardown, local, peer_frame, port, PortClosure,
  SessionState, PendingRequest, ActiveRequest,
}
use mango_protocol.Session.Shared.{settle_ready, retain}

-- What a teardown reason says: the code, the reason, the error, and whether to close the port.
pub record Outcome : Type 0 where
  pub code : ℕ
  pub reason : Option Text
  pub error : Option CodecError
  pub close_port : Bool

unfoldable pub outcome_of : Teardown → Outcome
outcome_of (local code reason) = record {
  code = code;
  reason = reason;
  error = none;
  close_port = true;
}
outcome_of (peer_frame code reason) = record {
  code = code;
  reason = reason;
  error = none;
  close_port = false;
}
outcome_of (port (PortClosure.closed code reason)) = record {
  code = elim code [ none ↦ released | some c ↦ c ];
  reason = reason;
  error = none;
  close_port = false;
}
outcome_of (port (PortClosure.protocol_error error code)) = record {
  code = code;
  reason = some (codec_error_text error);
  error = some error;
  close_port = false;
}

unfoldable pub why : Option Text → Text
why none = []
why (some text) = lit ": " ++ text

unfoldable pub tokens : Dict Text ActiveRequest → List ℕ
tokens [] = []
tokens ((id, request) ∷ active) = request.cancel ∷ tokens active

module _ ⦃L : Libs⦄ where
  unfoldable pub closed_error : ℕ → Option Text → RemoteError L
  closed_error code reason =
      with_detail
        (remote_error
          (if code == protocol_mismatch then lit "PROTOCOL_MISMATCH" else lit "UNAVAILABLE")
          (format (
            lit "The session closed before the handshake completed ("
            ∷ L.display code
            ∷ why reason
            ∷ lit ")."
            ∷ [])))
        (lit "close_code") (L.number_value code)

  unfoldable pub pending_error : ℕ → Option Text → Text → Text → RemoteError L
  pending_error code reason id method =
      with_detail
        (with_detail
          (with_detail
            (remote_error (lit "UNAVAILABLE") (
              format (
                lit "Request \""
                ∷ method
                ∷ lit "\" cannot complete: the session is closed ("
                ∷ L.display code
                ∷ why reason
                ∷ lit ")."
                ∷ [])))
            (lit "method") (L.text_value method))
          (lit "id") (L.text_value id))
        (lit "close_code") (L.number_value code)

  -- `for (id, request) in pending.drain()`
  unfoldable pub fail_pending :
      ℕ → Option Text → Dict Text PendingRequest → List (ℕ × Result (L.Value) (RemoteError L))
  fail_pending code reason [] = []
  fail_pending code reason ((id, request) ∷ pending) =
      (request.reply, err (pending_error code reason id request.method))
      ∷ fail_pending code reason pending

  -- `ends_in_time` tells which handlers end within the grace, and `flushed` that the writer's task
  -- gave the port back. The writer has been shut down, so what a handler still produces is never
  -- enqueued. The last component is the close that is sent to the port, if one is.
  unfoldable pub teardown :
      SessionDriver L
      → Teardown
      → (ℕ → Bool)
      → Bool
      → SessionDriver L × (SessionClosure × Option (ℕ × Option Text))
  unfolding outcome_of settle_ready fail_pending tokens retain
  teardown d reason ends_in_time flushed =
      let outcome = outcome_of reason in
      let unfinished = retain (λ task. not (ends_in_time task)) d.tracking.tasks in
      let closure : SessionClosure = record {
        code = outcome.code;
        reason = outcome.reason;
        fatal = is_fatal_close_code outcome.code;
        error = outcome.error;
        unfinished_handlers = length unfinished;
      } in
      let settled =
        settle_ready (err (closed_error outcome.code outcome.reason))
          (record d.shared { state = SessionState.closed }) in
      (
        record d {
          shared = record settled {
            closure = some closure;
            event_sequences = [];
            event_subscribers = [];
            pong_subscribers = [];
          };
          pending = [];
          tracking = record { tasks = unfinished; active = []; by_task_id = d.tracking.by_task_id };
          replies = d.replies ++ fail_pending outcome.code outcome.reason d.pending;
          cancelled = d.cancelled ++ tokens d.tracking.active;
        },
        (
          closure,
          if flushed && outcome.close_port then some (outcome.code, outcome.reason) else none,
        ),
      )
