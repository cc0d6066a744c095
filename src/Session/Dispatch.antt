-- ===== src/Session/Dispatch.antt =====
-- Inbound requests: crates/mango-protocol/src/session/dispatch.rs.
pub mod Linked
pub mod Accounts
use mango_protocol.Common.{
  ℕ, ◌+◌, ◌%◌, ◌^◌, Text, List, [], ◌∷◌, ◌++◌, Bool, true, false, not, ◌&&◌, leb, ◌==◌, length,
  Option, none, some, if◌then◌else◌, Result, ok, err, ◌>>=◌, ◌>>◌, ensure, get, insert, remove,
  contains_key, nat_eq, list_eq, ◌-◌,
}
use mango_protocol.Libs.{Libs}
use mango_protocol.Wire.Error.{lit, RemoteError, remote_error, with_detail}
use mango_protocol.Wire.Frame.{Frame, Request}
use mango_protocol.Validate.Grammar.{is_reserved_method_name, is_defined_reserved_method}
use mango_protocol.Codec.Serde.{Serde}
use mango_protocol.Session.State.{
  format, RemotePeer, Shared, SessionDriver, RequestTracking, ActiveRequest, is_ready,
}
use mango_protocol.Session.Shared.{assert_fits, retain}

abbrev pub in_flight_limit_kind : Text
unfolding lit
in_flight_limit_kind = lit "in_flight_limit"

-- What the runtime gives for a spawned handler: the task's id and a new cancellation token.
pub record Spawned : Type 0 where
  pub task : ℕ
  pub cancel : ℕ

-- `JoinError`: the task was aborted, or it panicked with a payload that is a text or is none.
pub data JoinError : Type 0 where
  aborted : JoinError
  panicked : Option Text → JoinError

unfoldable pub panic_message : JoinError → Text
panic_message aborted = lit "The handler task was aborted before it could settle."
panic_message (panicked (some message)) = message
panic_message (panicked none) = lit "The handler panicked."

module _ ⦃L : Libs⦄ where
  -- `Writer::enqueue`
  unfoldable pub enqueue : SessionDriver L → Frame L → SessionDriver L
  enqueue d frame = record d { enqueued = d.enqueued ++ frame ∷ [] }

  unfoldable pub error_frame : Text → RemoteError L → Frame L
  error_frame id error = Frame.err (record {
    id = id;
    error = record { code = error.code; message = error.message; details = error.details };
  })

  unfoldable pub respond_error : SessionDriver L → Text → RemoteError L → SessionDriver L
  unfolding enqueue error_frame
  respond_error d id error = enqueue d (error_frame id error)

  unfoldable pub not_ready_refusal : RemoteError L
  not_ready_refusal = remote_error (lit "UNAVAILABLE") (
      lit
        "The session handshake has not completed; requests are refused until both hellos have crossed.")

  unfoldable pub in_flight_refusal : ℕ → Text → RemoteError L
  in_flight_refusal limit method =
      with_detail
        (with_detail
          (with_detail
            (remote_error (lit "UNAVAILABLE") (
              format (
                lit "This peer is already answering "
                ∷ L.display limit
                ∷ lit " requests; retry \""
                ∷ method
                ∷ lit "\" once one of yours has settled."
                ∷ [])))
            (lit "kind") (L.text_value in_flight_limit_kind))
          (lit "limit") (L.number_value limit))
        (lit "method") (L.text_value method)

  unfoldable pub duplicate_refusal : Text → RemoteError L
  duplicate_refusal id =
      with_detail
        (remote_error (lit "INVALID_REQUEST") (
          format (
            lit "Request id \""
            ∷ id
            ∷ lit
                "\" is already in flight; expected an id unique among the sender's pending requests."
            ∷ [])))
        (lit "id") (L.text_value id)

  unfoldable pub reserved_refusal : Text → ℕ → RemoteError L
  reserved_refusal method effective_minor =
      with_detail
        (with_detail
          (remote_error (lit "INVALID_REQUEST") (
            format (
              lit "Method \""
              ∷ method
              ∷ lit
                  "\" is reserved; the rpc. segment belongs to the protocol and defines no such method at wire minor "
              ∷ L.display effective_minor
              ∷ lit "."
              ∷ [])))
          (lit "method") (L.text_value method))
        (lit "effectiveMinor") (L.number_value effective_minor)

  unfoldable pub unsupported_refusal : Text → RemoteError L
  unsupported_refusal method =
      with_detail
        (remote_error (lit "METHOD_UNSUPPORTED")
          (format (lit "Method \"" ∷ method ∷ lit "\" has no handler on this peer." ∷ [])))
        (lit "method") (L.text_value method)

  -- The peer that a session in `Ready` has recorded.
  unfoldable pub ready_remote : Shared L → Option (RemotePeer L)
  unfolding is_ready
  ready_remote shared = if is_ready shared.state then shared.remote else none

  -- The refusals of `on_request`, in their order; the handler to call if there is none.
  unfoldable pub admit : SessionDriver L → Request L → Result ℕ (RemoteError L)
  unfolding ready_remote
  admit d request = elim (ready_remote d.shared) [
    | none ↦ err not_ready_refusal
    | some remote ↦ do
      ensure (not (leb d.shared.max_in_flight (length d.tracking.active)))
          (in_flight_refusal d.shared.max_in_flight request.method)
      ensure (not (contains_key request.id d.tracking.active)) (duplicate_refusal request.id)
      ensure
          (not (
            is_reserved_method_name request.method
            && not (is_defined_reserved_method request.method remote.effective_minor)))
          (reserved_refusal request.method remote.effective_minor)
      elim (get request.method d.shared.handlers) [
        | none ↦ err (unsupported_refusal request.method)
        | some (generation, handler) ↦ ok handler
      ]
  ]

  -- The bookkeeping of a request whose handler has been spawned.
  unfoldable pub track : SessionDriver L → Request L → Spawned → SessionDriver L
  track d request spawned = record d {
    shared = record d.shared { in_flight = (d.shared.in_flight + 1) % 2 ^ 64 };
    tracking = record {
      tasks = spawned.task ∷ d.tracking.tasks;
      by_task_id = insert spawned.task request.id d.tracking.by_task_id;
      active =
          insert request.id (record { cancel = spawned.cancel; method = request.method })
            d.tracking.active;
    };
  }

  unfoldable pub on_request : SessionDriver L → Request L → Spawned → SessionDriver L
  unfolding admit track respond_error
  on_request d request spawned = elim (admit d request) [
    | ok handler ↦ track d request spawned
    | err refusal ↦ respond_error d request.id refusal
  ]

  unfoldable pub on_cancel : SessionDriver L → Text → SessionDriver L
  on_cancel d id = elim (get id d.tracking.active) [
    | none ↦ d
    | some request ↦ record d { cancelled = d.cancelled ++ request.cancel ∷ [] }
  ]

unfoldable pub result_name : Text → Text
result_name method = format (lit "The result of \"" ∷ method ∷ lit "\"" ∷ [])

module _ ⦃L : Libs⦄ ⦃S : Serde L⦄ where
  unfoldable pub respond_result : SessionDriver L → Text → Text → L.Value → SessionDriver L
  unfolding respond_error enqueue
  respond_result d method id value =
      let frame = Frame.res (record { id = id; result = value }) in
      elim (assert_fits d.shared frame (result_name method)) [
        | ok _ ↦ enqueue d frame
        | err error ↦ respond_error d id error
      ]

  -- What is sent for a settled handler.
  unfoldable pub respond :
      SessionDriver L → Text → Text → Result (L.Value) (RemoteError L) → SessionDriver L
  unfolding respond_result respond_error
  respond d method id (ok value) = respond_result d method id value
  respond d method id (err error) = respond_error d id error

  -- `fetch_sub(1)` wraps around at 0.
  abbrev pub joined : SessionDriver L → ℕ → SessionDriver L
  joined d task = record d {
    shared = record d.shared { in_flight = (d.shared.in_flight + (2 ^ 64 - 1)) % 2 ^ 64 };
    tracking = record d.tracking { tasks = retain (λ t. not (t == task)) d.tracking.tasks };
  }

  -- A task of the `JoinSet` has ended with an outcome.
  unfoldable pub settle_handler :
      SessionDriver L → ℕ → Result (L.Value) (RemoteError L) → SessionDriver L
  unfolding respond
  settle_handler d task outcome =
      let d = joined d task in
      elim (get task d.tracking.by_task_id) [
        | none ↦ d
        | some id ↦
            let d = record d {
              tracking = record d.tracking { by_task_id = remove task d.tracking.by_task_id };
            } in
            elim (get id d.tracking.active) [
              | none ↦ d
              | some request ↦
                  respond
                    (record d {
                      tracking = record d.tracking { active = remove id d.tracking.active };
                    })
                    request.method id outcome
            ]
      ]

  -- What `join_next_with_id` gives for a task: what the handler returned, or why it did not.
  unfoldable pub on_handler_settled :
      SessionDriver L → ℕ → Result (Result (L.Value) (RemoteError L)) JoinError → SessionDriver L
  unfolding settle_handler panic_message
  on_handler_settled d task (ok outcome) = settle_handler d task outcome
  on_handler_settled d task (err error) =
      settle_handler d task (err (remote_error (lit "INTERNAL") (panic_message error)))
