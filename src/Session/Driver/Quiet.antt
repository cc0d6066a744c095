-- ===== src/Session/Driver/Quiet.antt =====
-- The events that leave the requests being answered as they are.
use mango_protocol.Common.{
  ℕ, ◌≡◌, refl, ◌∙◌, [], ◌∷◌, Bool, true, false, some, Option-cases, arith, inl, inr, Result, ok,
  err, get, remove, Text, list_eq, Bool-cases,
}
use mango_protocol.Libs.{Libs}
use mango_protocol.Wire.Error.{RemoteError}
use mango_protocol.Wire.Frame.{Frame, Hello, Event}
use mango_protocol.Wire.Version.{negotiate, negotiation_cases}
use mango_protocol.Session.State.{
  SessionDriver, ready, Command, is_ready, is_handshaking, Shared, RemotePeer,
}
use mango_protocol.Session.Shared.{settle_ready, fan_out_event, fan_out_pong}
use mango_protocol.Session.Dispatch.{Spawned, enqueue, on_cancel}
use mango_protocol.Session.Dispatch.Accounts.{answers, answers-append, accounted, IsTracking}
use mango_protocol.Session.Driver.{
  handshake_error, error_of, remote_peer, mismatch_error, command, on_frame, on_command,
  on_liveness_tick, on_hello, on_response, expect_reply, on_handshake_timeout,
}
use mango_protocol.Session.Driver.Runs.{is_answer, is_request, enabled}

pub record Quiet {L : Libs} (d d' : SessionDriver L) : Type 0 where
  pub tracking : d'.tracking ≡ d.tracking
  pub in_flight : d'.shared.in_flight ≡ d.shared.in_flight
  pub max_in_flight : d'.shared.max_in_flight ≡ d.shared.max_in_flight
  pub answered : (id : Text) → answers id d'.enqueued ≡ answers id d.enqueued

-- A frame that answers nothing.
no_answer : {L : Libs} → (id : Text) (f : Frame L) → is_answer f ≡ false → answers id (f ∷ []) ≡ 0
unfolding answers
no_answer id (Frame.hello h) e = refl
no_answer id (Frame.req h) e = refl
no_answer id (Frame.res h) e = absurd cc
no_answer id (Frame.err h) e = absurd cc
no_answer id (Frame.evt h) e = refl
no_answer id (Frame.cancel h) e = refl
no_answer id Frame.ping e = refl
no_answer id Frame.pong e = refl
no_answer id (Frame.close h) e = refl

module _ ⦃L : Libs⦄ where
  pub Quiet-refl : (d : SessionDriver L) → Quiet d d
  Quiet-refl d = record {
    tracking = refl;
    in_flight = refl;
    max_in_flight = refl;
    answered = λ id. refl;
  }

  enqueue-Quiet :
      (d d' : SessionDriver L) (f : Frame L)
      → is_answer f ≡ false
      → Quiet d d'
      → Quiet d (enqueue d' f)
  unfolding enqueue
  enqueue-Quiet d d' f e q = record {
    tracking = q.tracking;
    in_flight = q.in_flight;
    max_in_flight = q.max_in_flight;
    answered = λ id.
        omega (arith, answers-append id d'.enqueued (f ∷ []), no_answer id f e, q.answered id);
  }

  settle_ready_limits :
      (o : Result (RemotePeer L) (RemoteError L)) (s : Shared L)
      → ((settle_ready o s).in_flight ≡ s.in_flight)
        × ((settle_ready o s).max_in_flight ≡ s.max_in_flight)
  unfolding settle_ready
  settle_ready_limits o s = elim (Option-cases s.ready) [
    | inl e ↦ (ground (arith, e), ground (arith, e))
    | inr (r, e) ↦ (ground (arith, e), ground (arith, e))
  ]

  settle_ready-Quiet :
      (d : SessionDriver L) (o : Result (RemotePeer L) (RemoteError L)) (s : Shared L)
      → s.in_flight ≡ d.shared.in_flight
      → s.max_in_flight ≡ d.shared.max_in_flight
      → Quiet d (record d { shared = settle_ready o s })
  settle_ready-Quiet d o s i m = record {
    tracking = refl;
    in_flight = (settle_ready_limits o s).0 ∙ i;
    max_in_flight = (settle_ready_limits o s).1 ∙ m;
    answered = λ id. refl;
  }

  pub on_hello-Quiet : (d : SessionDriver L) (h : Hello L) → Quiet d (on_hello d h).0
  unfolding on_hello
  on_hello-Quiet d h = elim (Bool-cases (is_handshaking d.shared.state)) [
    | inr late ↦ rw (late, on_hello) (Quiet-refl d)
    | inl early ↦ elim (negotiation_cases (negotiate d.shared.local_protocol h.protocol)) [
      | inl (minor, e) ↦
          rw (early, on_hello)
            (rw (e, on_hello)
              (settle_ready-Quiet d (ok (remote_peer h minor))
                (record d.shared { state = ready; remote = some (remote_peer h minor) }) refl refl))
      | inr (code, e) ↦
          rw (early, on_hello)
            (rw (e, on_hello)
              (settle_ready-Quiet d (err (mismatch_error d.shared h code)) d.shared refl refl))
    ]
  ]

  pub on_handshake_timeout-Quiet :
      (d : SessionDriver L) (millis : ℕ) → Quiet d (on_handshake_timeout d millis).0
  unfolding on_handshake_timeout
  on_handshake_timeout-Quiet d millis =
      settle_ready-Quiet d (err (handshake_error millis)) d.shared refl refl

  pub on_response-Quiet :
      (d : SessionDriver L) (id : Text) (r : Result L.Value (RemoteError L))
      → Quiet d (on_response d id r)
  unfolding on_response
  on_response-Quiet d id r = elim (Option-cases (get id d.pending)) [
    | inl e ↦ rw (e, on_response) (Quiet-refl d)
    | inr (p, e) ↦
        rw (e, on_response)
          (record {
            tracking = refl;
            in_flight = refl;
            max_in_flight = refl;
            answered = λ id. refl;
          })
  ]

  pub on_cancel-Quiet : (d : SessionDriver L) (id : Text) → Quiet d (on_cancel d id)
  unfolding on_cancel
  on_cancel-Quiet d id = elim (Option-cases (get id d.tracking.active)) [
    | inl e ↦ rw (e, on_cancel) (Quiet-refl d)
    | inr (p, e) ↦
        rw (e, on_cancel)
          (record {
            tracking = refl;
            in_flight = refl;
            max_in_flight = refl;
            answered = λ id. refl;
          })
  ]

  pub fan_out_event-Quiet :
      (d : SessionDriver L) (alive : ℕ → Bool) (e : Event L) → Quiet d (fan_out_event alive d e)
  unfolding fan_out_event
  fan_out_event-Quiet d alive e = elim (Bool-cases (is_ready d.shared.state)) [
    | inl on ↦
        rw (on, fan_out_event)
          (record {
            tracking = refl;
            in_flight = refl;
            max_in_flight = refl;
            answered = λ id. refl;
          })
    | inr off ↦ rw (off, fan_out_event) (Quiet-refl d)
  ]

  pub on_liveness_tick-Quiet : (d : SessionDriver L) → Quiet d (on_liveness_tick d).0
  unfolding on_liveness_tick
  on_liveness_tick-Quiet d = elim (Bool-cases d.awaiting_pong) [
    | inl on ↦ simp (on, on_liveness_tick) (Quiet-refl d)
    | inr off ↦
        simp (off, on_liveness_tick)
          (enqueue-Quiet d (record d { awaiting_pong = true }) Frame.ping refl
            (record {
              tracking = refl;
              in_flight = refl;
              max_in_flight = refl;
              answered = λ id. refl;
            }))
  ]

  expect_reply-Quiet :
      (d : SessionDriver L) (f : Frame L) (reply : ℕ) → Quiet d (expect_reply d f reply)
  unfolding expect_reply
  expect_reply-Quiet d (Frame.req request) reply = record {
    tracking = refl;
    in_flight = refl;
    max_in_flight = refl;
    answered = λ id. refl;
  }
  expect_reply-Quiet d (Frame.hello _) reply = Quiet-refl d
  expect_reply-Quiet d (Frame.res _) reply = Quiet-refl d
  expect_reply-Quiet d (Frame.err _) reply = Quiet-refl d
  expect_reply-Quiet d (Frame.evt _) reply = Quiet-refl d
  expect_reply-Quiet d (Frame.cancel _) reply = Quiet-refl d
  expect_reply-Quiet d Frame.ping reply = Quiet-refl d
  expect_reply-Quiet d Frame.pong reply = Quiet-refl d
  expect_reply-Quiet d (Frame.close _) reply = Quiet-refl d

  pub on_command-Quiet :
      (d : SessionDriver L) (c : Command L)
      → enabled d (command c) ≡ true
      → Quiet d (on_command d c).0
  unfolding on_command enabled expect_reply
  on_command-Quiet d (Command.close code reason) h = Quiet-refl d
  on_command-Quiet d (Command.request frame reply) h =
      enqueue-Quiet d (expect_reply d frame reply) frame (ground arith)
        (expect_reply-Quiet d frame reply)
  on_command-Quiet d (Command.cancel id true) h =
      enqueue-Quiet d d (Frame.cancel (record { id = id })) refl (Quiet-refl d)
  on_command-Quiet d (Command.cancel id false) h =
      enqueue-Quiet d (record d { pending = remove id d.pending })
        (Frame.cancel (record { id = id })) refl
        (record { tracking = refl; in_flight = refl; max_in_flight = refl; answered = λ id. refl })
  on_command-Quiet d (Command.send frame) h = enqueue-Quiet d d frame (ground arith) (Quiet-refl d)

  -- A frame other than a request.
  pub on_frame-Quiet :
      (d : SessionDriver L) (f : Frame L) (alive : ℕ → Bool) (spawned : Spawned)
      → is_request f ≡ false
      → Quiet d (on_frame d f alive spawned).0
  unfolding on_frame fan_out_pong
  on_frame-Quiet d (Frame.hello hello) alive spawned h = on_hello-Quiet d hello
  on_frame-Quiet d (Frame.close close) alive spawned h = Quiet-refl d
  on_frame-Quiet d (Frame.req request) alive spawned h = absurd cc
  on_frame-Quiet d (Frame.res response) alive spawned h =
      on_response-Quiet d response.id (ok response.result)
  on_frame-Quiet d (Frame.err response) alive spawned h =
      on_response-Quiet d response.id (err (error_of response))
  on_frame-Quiet d (Frame.evt event) alive spawned h = fan_out_event-Quiet d alive event
  on_frame-Quiet d (Frame.cancel cancel) alive spawned h = on_cancel-Quiet d cancel.id
  on_frame-Quiet d Frame.ping alive spawned h = enqueue-Quiet d d Frame.pong refl (Quiet-refl d)
  on_frame-Quiet d Frame.pong alive spawned h = record {
    tracking = refl;
    in_flight = refl;
    max_in_flight = refl;
    answered = λ id. refl;
  }

  pub Quiet-IsTracking : (d d' : SessionDriver L) → Quiet d d' → IsTracking d → IsTracking d'
  Quiet-IsTracking d d' q v = record {
    linked = rw q.tracking v.linked;
    counted = rw (q.tracking, q.in_flight) v.counted;
    agreed = rw (q.tracking, q.max_in_flight) v.agreed;
    machine = rw q.max_in_flight v.machine;
  }

  pub Quiet-accounted :
      (id : Text) (d d' : SessionDriver L) → Quiet d d' → accounted id d' ≡ accounted id d
  unfolding accounted
  Quiet-accounted id d d' q = rw (q.tracking, q.answered id) refl
