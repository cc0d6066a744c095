-- ===== src/Session/Driver/Handshake.antt =====
-- The state of a session, its peer and the outcome of `ready`, in every run of the driver's loop.
use mango_protocol.Common.{
  ℕ, ◌≡◌, ◌⊎◌, subst, refl, ap, Text, List, Bool, true, false, Option, none, some, Option-cases,
  Bool-cases, inl, inr, Result, ok, err, Result-cases, get, nat_eq, list_eq, arith,
}
use mango_protocol.Libs.{Libs}
use mango_protocol.Wire.Error.{RemoteError}
use mango_protocol.Wire.Version.{ProtocolVersion, negotiate, compatible, negotiation_cases}
use mango_protocol.Wire.Frame.{Frame, Hello, Request}
use mango_protocol.Wire.Frame as Wire
use mango_protocol.Codec.Serde.{Serde}
use mango_protocol.Session.State.{
  SessionDriver, SessionState, handshaking, ready, Command, RemotePeer, is_ready, is_handshaking,
}
use mango_protocol.Session.Shared.{settle_ready, assert_fits, fan_out_event, fan_out_pong}
use mango_protocol.Session.Dispatch.{
  Spawned, result_name, enqueue, respond_error, respond_result, respond, admit, track, on_request,
  on_cancel, joined, settle_handler,
}
use mango_protocol.Session.Dispatch.Accounts.{on_handler_settled-settle_handler}
use mango_protocol.Session.Driver.{
  Event, send_failed, handshake_timeout, liveness_tick, handler_settled, command, inbound,
  inbound_closed, inbound_ended, step, on_frame, on_command, on_liveness_tick, on_hello,
  on_response, expect_reply, remote_peer, error_of,
}
use mango_protocol.Session.Driver.Runs.{Run, start, round}

-- What a handle reads of a session.
abbrev pub View : Libs → Type 0
View L =
    SessionState
    × (Option (RemotePeer L) × (Option (Result (RemotePeer L) (RemoteError L)) × ProtocolVersion))

abbrev pub view : {L : Libs} → SessionDriver L → View L
view d = (d.shared.state, (d.shared.remote, (d.shared.ready, d.shared.local_protocol)))

-- While the handshake lasts there is no peer and `ready` is open; afterwards the session is ready,
-- `ready` has given the peer that is recorded, and its version is compatible with this side's.
abbrev pub Agreed : {L : Libs} → View L → Type 0
Agreed (handshaking, (remote, (outcome, local))) = (remote ≡ none) × (outcome ≡ none)
Agreed {L = L} (ready, (remote, (outcome, local))) =
    (peer : RemotePeer L) × (remote ≡ some peer)
    × (outcome ≡ some (ok peer))
    × (negotiate local peer.protocol ≡ compatible peer.effective_minor)
Agreed (SessionState.closed, _) = ⊥

handshaking_cases : (s : SessionState) → (s ≡ handshaking) ⊎ (is_handshaking s ≡ false)
unfolding is_handshaking
handshaking_cases handshaking = inl refl
handshaking_cases ready = inr refl
handshaking_cases SessionState.closed = inr refl

module _ ⦃L : Libs⦄ where
  view-on_request :
      (d : SessionDriver L) (r : Request L) (s : Spawned) → view (on_request d r s) ≡ view d
  unfolding on_request track respond_error enqueue
  view-on_request d r s = elim (Result-cases (admit d r)) [
    | inl (handler, h) ↦ rw (h, on_request) refl
    | inr (refusal, h) ↦ rw (h, on_request) refl
  ]

  view-on_cancel : (d : SessionDriver L) (id : Text) → view (on_cancel d id) ≡ view d
  unfolding on_cancel
  view-on_cancel d id = elim (Option-cases (get id d.tracking.active)) [
    | inl e ↦ rw (e, on_cancel) refl
    | inr (r, e) ↦ rw (e, on_cancel) refl
  ]

  view-on_response :
      (d : SessionDriver L) (id : Text) (r : Result L.Value (RemoteError L))
      → view (on_response d id r) ≡ view d
  unfolding on_response
  view-on_response d id r = elim (Option-cases (get id d.pending)) [
    | inl e ↦ rw (e, on_response) refl
    | inr (p, e) ↦ rw (e, on_response) refl
  ]

  view-expect_reply :
      (d : SessionDriver L) (f : Frame L) (reply : ℕ) → view (expect_reply d f reply) ≡ view d
  unfolding expect_reply
  view-expect_reply d (Frame.req _) reply = refl
  view-expect_reply d (Frame.hello _) reply = refl
  view-expect_reply d (Frame.res _) reply = refl
  view-expect_reply d (Frame.err _) reply = refl
  view-expect_reply d (Frame.evt _) reply = refl
  view-expect_reply d (Frame.cancel _) reply = refl
  view-expect_reply d Frame.ping reply = refl
  view-expect_reply d Frame.pong reply = refl
  view-expect_reply d (Frame.close _) reply = refl

  view-on_command : (d : SessionDriver L) (c : Command L) → view (on_command d c).0 ≡ view d
  unfolding on_command enqueue
  view-on_command d (Command.close code reason) = refl
  view-on_command d (Command.request frame reply) = view-expect_reply d frame reply
  view-on_command d (Command.cancel id true) = refl
  view-on_command d (Command.cancel id false) = refl
  view-on_command d (Command.send frame) = refl

  view-on_liveness_tick : (d : SessionDriver L) → view (on_liveness_tick d).0 ≡ view d
  unfolding on_liveness_tick enqueue
  view-on_liveness_tick d = elim (Bool-cases d.awaiting_pong) [
    | inl on ↦ simp (on, on_liveness_tick) refl
    | inr off ↦ simp (off, on_liveness_tick) refl
  ]

  view-settle_ready :
      (d : SessionDriver L) (h : Hello L) (minor : ℕ)
      → d.shared.ready ≡ none
      → negotiate d.shared.local_protocol h.protocol ≡ compatible minor
      → is_handshaking d.shared.state ≡ true
      → view (on_hello d h).0 ≡ (
        ready,
        (some (remote_peer h minor), (some (ok (remote_peer h minor)), d.shared.local_protocol)),
      )
  unfolding on_hello settle_ready
  view-settle_ready d h minor open_ e early =
      rw (early, on_hello) (rw (e, on_hello) (rw (open_, settle_ready) refl))

  view-fan_out_event :
      (alive : ℕ → Bool) (d : SessionDriver L) (e : Wire.Event L)
      → view (fan_out_event alive d e) ≡ view d
  unfolding fan_out_event
  view-fan_out_event alive d e = elim (Bool-cases (is_ready d.shared.state)) [
    | inl on ↦ rw (on, fan_out_event) refl
    | inr off ↦ rw (off, fan_out_event) refl
  ]

  on_hello-Agreed :
      (d : SessionDriver L) (h : Hello L)
      → Agreed (view d)
      → (on_hello d h).1 ≡ none
      → Agreed (view (on_hello d h).0)
  unfolding on_hello is_handshaking
  on_hello-Agreed d h v stays = elim (handshaking_cases d.shared.state) [
    | inr late ↦ absurd (ground (arith, late))
    | inl waiting ↦ elim (negotiation_cases (negotiate d.shared.local_protocol h.protocol)) [
      | inr (code, e) ↦ absurd (ground (arith, ap is_handshaking waiting, e))
      | inl (minor, e) ↦
          let w : Agreed
              (handshaking, (d.shared.remote, (d.shared.ready, d.shared.local_protocol))) =
            subst (λ s. Agreed (s, (d.shared.remote, (d.shared.ready, d.shared.local_protocol))))
              waiting v in
          rw (view-settle_ready d h minor w.1 e (ap is_handshaking waiting))
            (remote_peer h minor, refl, refl, e)
    ]
  ]

module _ ⦃L : Libs⦄ ⦃S : Serde L⦄ where
  view-respond :
      (d : SessionDriver L) (method id : Text) (o : Result L.Value (RemoteError L))
      → view (respond d method id o) ≡ view d
  unfolding respond respond_result respond_error enqueue
  view-respond d method id (err error) = refl
  view-respond d method id (ok value) =
      elim (Result-cases (
        assert_fits d.shared (Frame.res (record { id = id; result = value }))
          (result_name method))) [
            | inl (u, h) ↦ rw (h, respond, respond_result) refl
            | inr (e, h) ↦ rw (h, respond, respond_result) refl
          ]

  view-settle_handler :
      (d : SessionDriver L) (task : ℕ) (o : Result L.Value (RemoteError L))
      → view (settle_handler d task o) ≡ view d
  unfolding settle_handler
  view-settle_handler d task o = elim (Option-cases (get task d.tracking.by_task_id)) [
    | inl e ↦ rw (e, settle_handler) refl
    | inr (id, e) ↦ elim (Option-cases (get id d.tracking.active)) [
      | inl f ↦ rw (e, settle_handler) (rw (f, settle_handler) refl)
      | inr (r, f) ↦ rw (e, settle_handler) (rw (f, settle_handler) (view-respond _ r.method id o))
    ]
  ]

  frame-Agreed :
      (d : SessionDriver L) (f : Frame L) (alive : ℕ → Bool) (spawned : Spawned)
      → Agreed (view d)
      → (on_frame d f alive spawned).1 ≡ none
      → Agreed (view (on_frame d f alive spawned).0)
  unfolding on_frame fan_out_pong enqueue
  frame-Agreed d (Frame.hello h) alive spawned v stays = on_hello-Agreed d h v stays
  frame-Agreed d (Frame.close c) alive spawned v stays = v
  frame-Agreed d (Frame.req r) alive spawned v stays = rw (view-on_request d r spawned) v
  frame-Agreed d (Frame.res r) alive spawned v stays = rw (view-on_response d r.id (ok r.result)) v
  frame-Agreed d (Frame.err r) alive spawned v stays =
      rw (view-on_response d r.id (err (error_of r))) v
  frame-Agreed d (Frame.evt e) alive spawned v stays = rw (view-fan_out_event alive d e) v
  frame-Agreed d (Frame.cancel c) alive spawned v stays = rw (view-on_cancel d c.id) v
  frame-Agreed d Frame.ping alive spawned v stays = v
  frame-Agreed d Frame.pong alive spawned v stays = v

  step-Agreed :
      (d : SessionDriver L) (event : Event L)
      → Agreed (view d)
      → (step d event).1 ≡ none
      → Agreed (view (step d event).0)
  unfolding step
  step-Agreed d (send_failed outcome) v stays = v
  step-Agreed d (handshake_timeout millis) v stays = absurd cc
  step-Agreed d liveness_tick v stays = rw (view-on_liveness_tick d) v
  step-Agreed d (handler_settled task joined) v stays =
      let (o, e) = on_handler_settled-settle_handler d task joined in
      rw (e, view-settle_handler d task o) v
  step-Agreed d (command c) v stays = rw (view-on_command d c) v
  step-Agreed d (inbound f alive spawned) v stays = frame-Agreed d f alive spawned v stays
  step-Agreed d (inbound_closed closure) v stays = v
  step-Agreed d inbound_ended v stays = v

  -- However long the loop runs: either the handshake lasts, no peer is recorded and `ready` is open;
  -- or the session is ready, a peer is recorded whose version is compatible with this side's at the
  -- recorded effective minor, and `ready` has given this very peer; if it was so at the start.
  pub Run-Agreed :
      (d d' : SessionDriver L) (events : List (Event L))
      → Agreed (view d)
      → Run d d' events
      → Agreed (view d')
  Run-Agreed d _ _ v start = v
  Run-Agreed d _ _ v (round d' events event run on stays) =
      step-Agreed d' event (Run-Agreed d d' events v run) stays
