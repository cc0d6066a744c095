-- ===== src/Session/Dispatch/Accounts.antt =====
-- Every request that arrives is answered under its own id or active, and no more than agreed are
-- active.
use mango_protocol.Common.{
  ℕ, ◌+◌, ◌^◌, ◌≤◌, ◌<◌, ◌≡◌, refl, Text, List, [], ◌∷◌, ◌++◌, true, false, length, none,
  Option-cases, Result, ok, err, Result-cases, inl, inr, get, remove, remove_absent, nat_eq,
  list_eq, arith, text_eq, text_eq_iff, if◌then◌else◌, ◌≢◌, sym, some, subst, Bool-cases, ap,
  Option, Dict, get_first, get_next, get-remove_self, get-remove_ne,
}
use mango_protocol.Libs.{Libs}
use mango_protocol.Wire.Error.{lit, remote_error, RemoteError}
use mango_protocol.Wire.Close.{contains}
use mango_protocol.Wire.Frame.{Frame, Request}
use mango_protocol.Codec.Serde.{Serde}
use mango_protocol.Session.State.{SessionDriver, ActiveRequest}
use mango_protocol.Session.Shared.{assert_fits}
use mango_protocol.Session.Dispatch.{
  on_handler_settled, JoinError, panic_message, Spawned, result_name, enqueue, error_frame,
  respond_error, ready_remote, admit, track, on_request, respond_result, respond, joined,
  settle_handler,
}
use mango_protocol.Session.Dispatch.Linked.{
  Linked, answering, fresh-get, Linked-length, Settled, settle,
}

-- 1 for the same id.
abbrev pub same_id : Text → Text → ℕ
same_id key id = if text_eq key id then 1 else 0

-- How many of the frames answer a request with this id.
unfoldable pub answers : {L : Libs} → Text → List (Frame L) → ℕ
answers id [] = 0
answers id (Frame.res response ∷ frames) = same_id response.id id + answers id frames
answers id (Frame.err response ∷ frames) = same_id response.id id + answers id frames
answers id (_ ∷ frames) = answers id frames

pub answers-append :
    {L : Libs}
    → (id : Text) (xs ys : List (Frame L)) → answers id (xs ++ ys) ≡ answers id xs + answers id ys
unfolding answers
answers-append id [] ys = omega arith
answers-append id (Frame.hello h ∷ xs) ys = answers-append id xs ys
answers-append id (Frame.req h ∷ xs) ys = answers-append id xs ys
answers-append id (Frame.res h ∷ xs) ys = omega (arith, answers-append id xs ys)
answers-append id (Frame.err h ∷ xs) ys = omega (arith, answers-append id xs ys)
answers-append id (Frame.evt h ∷ xs) ys = answers-append id xs ys
answers-append id (Frame.cancel h ∷ xs) ys = answers-append id xs ys
answers-append id (Frame.ping ∷ xs) ys = answers-append id xs ys
answers-append id (Frame.pong ∷ xs) ys = answers-append id xs ys
answers-append id (Frame.close h ∷ xs) ys = answers-append id xs ys

abbrev present : Option ActiveRequest → ℕ
present none = 0
present (some request) = 1

-- 1 where a request with this id is active.
abbrev pub waiting : Text → Dict Text ActiveRequest → ℕ
waiting id active = present (get id active)

waiting-insert :
    (id key : Text) (request : ActiveRequest) (active : Dict Text ActiveRequest)
    → get key active ≡ none
    → waiting id ((key, request) ∷ active) ≡ waiting id active + same_id key id
waiting-insert id key request active h = elim (Bool-cases (text_eq key id)) [
  | inl same ↦
      let e : key ≡ id = (text_eq_iff key id).0 same in
      let before : get id active ≡ none = subst (λ k. get k active ≡ none) e h in
      let after : get id ((key, request) ∷ active) ≡ some request =
        subst (λ k. get id ((k, request) ∷ active) ≡ some request) (sym e)
          (get_first id request active) in
      rw same (omega (arith, ap present before, ap present after))
  | inr other ↦
      let ne : key ≢ id = λ e. ground (arith, other, (text_eq_iff key id).1 e) in
      rw other (omega (arith, ap present (get_next key id request active ne)))
]

waiting-remove :
    (id key : Text) (request : ActiveRequest) (active : Dict Text ActiveRequest)
    → get key active ≡ some request
    → waiting id active ≡ waiting id (remove key active) + same_id key id
waiting-remove id key request active h = elim (Bool-cases (text_eq key id)) [
  | inl same ↦
      let e : key ≡ id = (text_eq_iff key id).0 same in
      let before : get id active ≡ some request = subst (λ k. get k active ≡ some request) e h in
      let after : get id (remove key active) ≡ none =
        subst (λ k. get k (remove key active) ≡ none) e (get-remove_self key active) in
      rw same (omega (arith, ap present before, ap present after))
  | inr other ↦
      let ne : key ≢ id = λ e. ground (arith, other, (text_eq_iff key id).1 e) in
      rw other (omega (arith, ap present (get-remove_ne key id active ne)))
]

-- The requests with this id that are answered already, and the one that is still active.
unfoldable pub accounted : {L : Libs} → Text → SessionDriver L → ℕ
accounted id d = answers id d.enqueued + waiting id d.tracking.active

-- The tables of a driver agree, its counter is the number of its tasks, and no more requests are
-- active than this side agreed to hold (`max_in_flight` is a `usize`).
pub record IsTracking {L : Libs} (d : SessionDriver L) : Type 0 where
  pub linked : Linked d.tracking.tasks d.tracking.by_task_id d.tracking.active
  pub counted : d.shared.in_flight ≡ length d.tracking.tasks
  pub agreed : length d.tracking.active ≤ d.shared.max_in_flight
  pub machine : d.shared.max_in_flight < 2 ^ 64

module _ ⦃L : Libs⦄ where
  pub answers-enqueue :
      (id : Text) (d : SessionDriver L) (f : Frame L)
      → answers id (enqueue d f).enqueued ≡ answers id d.enqueued + answers id (f ∷ [])
  unfolding enqueue
  answers-enqueue id d f = answers-append id d.enqueued (f ∷ [])

  -- What a request that is not refused has passed.
  admitted :
      (d : SessionDriver L) (r : Request L) (handler : ℕ)
      → admit d r ≡ ok handler
      → (length d.tracking.active < d.shared.max_in_flight) × (get r.id d.tracking.active ≡ none)
  unfolding admit
  admitted d r handler h = elim (Option-cases (ready_remote d.shared)) [
    | inl e ↦ absurd (ground (arith, e))
    | inr (remote, e) ↦ (ground (arith, e), ground (arith, e))
  ]

  track-IsTracking :
      (d : SessionDriver L) (r : Request L) (s : Spawned) (handler : ℕ)
      → IsTracking d
      → contains d.tracking.tasks s.task ≡ false
      → admit d r ≡ ok handler
      → IsTracking (track d r s)
  unfolding track
  track-IsTracking d r s handler v fresh h =
      let (room, new) = admitted d r handler h in
      let new_task =
        fresh-get s.task d.tracking.tasks d.tracking.by_task_id d.tracking.active v.linked fresh in
      let same = Linked-length d.tracking.tasks d.tracking.by_task_id d.tracking.active v.linked in
      record {
        linked =
            rw
              (
                remove_absent s.task d.tracking.by_task_id new_task,
                remove_absent r.id d.tracking.active new,
              )
              (answering _ _ _ s.task r.id _ v.linked new_task new);
        counted = omega (arith, v.counted, same, room, v.machine);
        agreed = rw (remove_absent r.id d.tracking.active new) (omega (arith, room));
        machine = v.machine;
      }

  enqueue-IsTracking : (d : SessionDriver L) (f : Frame L) → IsTracking d → IsTracking (enqueue d f)
  unfolding enqueue
  enqueue-IsTracking d f v = record {
    linked = v.linked;
    counted = v.counted;
    agreed = v.agreed;
    machine = v.machine;
  }

  pub on_request-IsTracking :
      (d : SessionDriver L) (r : Request L) (s : Spawned)
      → IsTracking d
      → contains d.tracking.tasks s.task ≡ false
      → IsTracking (on_request d r s)
  unfolding on_request respond_error
  on_request-IsTracking d r s v fresh = elim (Result-cases (admit d r)) [
    | inl (handler, h) ↦ rw (h, on_request) (track-IsTracking d r s handler v fresh h)
    | inr (refusal, h) ↦ rw (h, on_request) (enqueue-IsTracking d _ v)
  ]

  pub accounted-on_request :
      (id : Text) (d : SessionDriver L) (r : Request L) (s : Spawned)
      → accounted id (on_request d r s) ≡ accounted id d + same_id r.id id
  unfolding on_request accounted respond_error track enqueue error_frame answers
  accounted-on_request id d r s = elim (Result-cases (admit d r)) [
    | inl (handler, h) ↦
        let new = (admitted d r handler h).1 in
        rw (h, on_request)
          (rw (remove_absent r.id d.tracking.active new)
            (omega (arith, waiting-insert id r.id _ d.tracking.active new)))
    | inr (refusal, h) ↦
        rw (h, on_request)
          (omega (arith, answers-append id d.enqueued (error_frame r.id refusal ∷ [])))
  ]

module _ ⦃L : Libs⦄ ⦃S : Serde L⦄ where
  -- A settled handler's request is answered by one frame, with its id.
  respond_one :
      (d : SessionDriver L) (method id : Text) (outcome : Result L.Value (RemoteError L))
      → (f : Frame L) × ((other : Text) → answers other (f ∷ []) ≡ same_id id other)
        × (respond d method id outcome ≡ enqueue d f)
  unfolding respond respond_result respond_error error_frame answers
  respond_one d method id (err error) = (_, λ other. omega arith, refl)
  respond_one d method id (ok value) =
      elim (Result-cases (
        assert_fits d.shared (Frame.res (record { id = id; result = value }))
          (result_name method))) [
            | inl (u, h) ↦ (
              Frame.res (record { id = id; result = value }),
              λ other. omega arith,
              rw (h, respond, respond_result) refl,
            )
            | inr (error, h) ↦
                (error_frame id error, λ other. omega arith, rw (h, respond, respond_result) refl)
          ]

  -- The driver without a task and its request.
  cleared : SessionDriver L → ℕ → Text → SessionDriver L
  cleared d task id =
      let d = joined d task in
      record d {
        tracking = record d.tracking {
          by_task_id = remove task d.tracking.by_task_id;
          active = remove id d.tracking.active;
        };
      }

  settled_cases :
      (d : SessionDriver L) (task : ℕ) (outcome : Result L.Value (RemoteError L))
      → (s : Settled task d.tracking.tasks d.tracking.by_task_id d.tracking.active)
      → settle_handler d task outcome ≡ respond (cleared d task s.id) s.request.method s.id outcome
  unfolding settle_handler cleared
  settled_cases d task outcome s =
      rw (s.answers, settle_handler) (rw (s.active_request, settle_handler) refl)

  cleared-IsTracking :
      (d : SessionDriver L) (task : ℕ)
      → IsTracking d
      → (s : Settled task d.tracking.tasks d.tracking.by_task_id d.tracking.active)
      → IsTracking (cleared d task s.id)
  unfolding cleared
  cleared-IsTracking d task v s =
      let before =
        Linked-length d.tracking.tasks d.tracking.by_task_id d.tracking.active v.linked in
      let after = Linked-length _ _ _ s.left in
      record {
        linked = s.left;
        counted = omega (arith, v.counted, before, after, s.one_fewer, v.agreed, v.machine);
        agreed = omega (arith, v.agreed, s.one_fewer);
        machine = v.machine;
      }

  pub settle_handler-IsTracking :
      (d : SessionDriver L) (task : ℕ) (outcome : Result L.Value (RemoteError L))
      → IsTracking d
      → contains d.tracking.tasks task ≡ true
      → IsTracking (settle_handler d task outcome)
  settle_handler-IsTracking d task outcome v h =
      let s = settle task d.tracking.tasks d.tracking.by_task_id d.tracking.active v.linked h in
      let (f, one, e) = respond_one (cleared d task s.id) s.request.method s.id outcome in
      rw (settled_cases d task outcome s, e)
        (enqueue-IsTracking _ f (cleared-IsTracking d task v s))

  pub accounted-settle_handler :
      (id : Text) (d : SessionDriver L) (task : ℕ) (outcome : Result L.Value (RemoteError L))
      → IsTracking d
      → contains d.tracking.tasks task ≡ true
      → accounted id (settle_handler d task outcome) ≡ accounted id d
  unfolding accounted cleared enqueue
  accounted-settle_handler id d task outcome v h =
      let s = settle task d.tracking.tasks d.tracking.by_task_id d.tracking.active v.linked h in
      let (f, own, e) = respond_one (cleared d task s.id) s.request.method s.id outcome in
      rw (settled_cases d task outcome s, e)
        (omega (
          arith,
          answers-append id d.enqueued (f ∷ []),
          own id,
          waiting-remove id s.id s.request d.tracking.active s.active_request,
        ))

  pub on_handler_settled-settle_handler :
      (d : SessionDriver L) (task : ℕ) (joined : Result (Result L.Value (RemoteError L)) JoinError)
      → (o : Result L.Value (RemoteError L)) × (on_handler_settled d task joined
          ≡ settle_handler d task o)
  unfolding on_handler_settled
  on_handler_settled-settle_handler d task (ok o) = (o, refl)
  on_handler_settled-settle_handler d task (err e) =
      (err (remote_error (lit "INTERNAL") (panic_message e)), refl)
