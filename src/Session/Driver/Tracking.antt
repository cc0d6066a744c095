-- ===== src/Session/Driver/Tracking.antt =====
-- What a driver's loop keeps of the requests being answered.
use mango_protocol.Common.{ℕ, Text, ◌+◌, ◌≡◌, refl, List, Bool, true, false, arith, list_eq}
use mango_protocol.Libs.{Libs}
use mango_protocol.Wire.Close.{contains}
use mango_protocol.Wire.Frame.{Frame}
use mango_protocol.Codec.Serde.{Serde}
use mango_protocol.Session.State.{SessionDriver}
use mango_protocol.Session.Dispatch.{Spawned}
use mango_protocol.Session.Dispatch.Accounts.{
  accounted, IsTracking, on_request-IsTracking, accounted-on_request, settle_handler-IsTracking,
  accounted-settle_handler, on_handler_settled-settle_handler,
}
use mango_protocol.Session.Driver.{
  Event, send_failed, handshake_timeout, liveness_tick, handler_settled, command, inbound,
  inbound_closed, inbound_ended, step, on_frame,
}
use mango_protocol.Session.Driver.Runs.{enabled, request_count, requests, Run, start, round}
use mango_protocol.Session.Driver.Quiet.{
  Quiet, Quiet-refl, Quiet-IsTracking, Quiet-accounted, on_frame-Quiet, on_command-Quiet,
  on_liveness_tick-Quiet, on_handshake_timeout-Quiet,
}

module _ ⦃L : Libs⦄ ⦃S : Serde L⦄ where
  -- What a round does to the accounts.
  pub record Keeps (d d' : SessionDriver L) (received : Text → ℕ) : Type 0 where
    pub tracking : IsTracking d'
    pub balance : (id : Text) → accounted id d' ≡ accounted id d + received id

  Quiet-Keeps : (d d' : SessionDriver L) → IsTracking d → Quiet d d' → Keeps d d' (λ id. 0)
  Quiet-Keeps d d' v q = record {
    tracking = Quiet-IsTracking d d' q v;
    balance = λ id. omega (arith, Quiet-accounted id d d' q);
  }

  frame-Keeps :
      (d : SessionDriver L) (f : Frame L) (alive : ℕ → Bool) (spawned : Spawned)
      → IsTracking d
      → contains d.tracking.tasks spawned.task ≡ false
      → Keeps d (on_frame d f alive spawned).0 (λ id. request_count id (inbound f alive spawned))
  unfolding on_frame
  frame-Keeps d (Frame.req request) alive spawned v h = record {
    tracking = on_request-IsTracking d request spawned v h;
    balance = λ id. accounted-on_request id d request spawned;
  }
  frame-Keeps d (Frame.hello x) alive spawned v h =
      Quiet-Keeps d _ v (on_frame-Quiet d (Frame.hello x) alive spawned refl)
  frame-Keeps d (Frame.res x) alive spawned v h =
      Quiet-Keeps d _ v (on_frame-Quiet d (Frame.res x) alive spawned refl)
  frame-Keeps d (Frame.err x) alive spawned v h =
      Quiet-Keeps d _ v (on_frame-Quiet d (Frame.err x) alive spawned refl)
  frame-Keeps d (Frame.evt x) alive spawned v h =
      Quiet-Keeps d _ v (on_frame-Quiet d (Frame.evt x) alive spawned refl)
  frame-Keeps d (Frame.cancel x) alive spawned v h =
      Quiet-Keeps d _ v (on_frame-Quiet d (Frame.cancel x) alive spawned refl)
  frame-Keeps d Frame.ping alive spawned v h =
      Quiet-Keeps d _ v (on_frame-Quiet d Frame.ping alive spawned refl)
  frame-Keeps d Frame.pong alive spawned v h =
      Quiet-Keeps d _ v (on_frame-Quiet d Frame.pong alive spawned refl)
  frame-Keeps d (Frame.close x) alive spawned v h =
      Quiet-Keeps d _ v (on_frame-Quiet d (Frame.close x) alive spawned refl)

  step-Keeps :
      (d : SessionDriver L) (event : Event L)
      → IsTracking d
      → enabled d event ≡ true
      → Keeps d (step d event).0 (λ id. request_count id event)
  unfolding step enabled
  step-Keeps d (send_failed outcome) v h = Quiet-Keeps d d v (Quiet-refl d)
  step-Keeps d (handshake_timeout millis) v h =
      Quiet-Keeps d _ v (on_handshake_timeout-Quiet d millis)
  step-Keeps d liveness_tick v h = Quiet-Keeps d _ v (on_liveness_tick-Quiet d)
  step-Keeps d (handler_settled task joined) v h =
      let (o, e) = on_handler_settled-settle_handler d task joined in
      rw e (record {
        tracking = settle_handler-IsTracking d task o v h;
        balance = λ id. omega (arith, accounted-settle_handler id d task o v h);
      })
  step-Keeps d (command c) v h = Quiet-Keeps d _ v (on_command-Quiet d c h)
  step-Keeps d (inbound f alive spawned) v h = frame-Keeps d f alive spawned v (ground arith)
  step-Keeps d (inbound_closed closure) v h = Quiet-Keeps d d v (Quiet-refl d)
  step-Keeps d inbound_ended v h = Quiet-Keeps d d v (Quiet-refl d)

  -- However long the loop runs, on any events that the runtime can deliver: the tables of the
  -- requests being answered agree with each other and with the counter, no more than
  -- `max_in_flight` requests are active, and for every id, the `res` and `err` frames enqueued with
  -- this id and the active request with it, where there is one, have together grown by the number of
  -- `req` frames received with this id; if the tables agreed at the start.
  pub Run-accounted :
      (d d' : SessionDriver L) (events : List (Event L))
      → IsTracking d
      → Run d d' events
      → IsTracking d' × ((id : Text) → accounted id d' ≡ accounted id d + requests id events)
  unfolding requests
  Run-accounted d _ _ v start = (v, λ id. omega arith)
  Run-accounted d _ _ v (round d' events event run on quiet) =
      let (v', sum) = Run-accounted d d' events v run in
      let k = step-Keeps d' event v' on in (k.tracking, λ id. omega (arith, k.balance id, sum id))
