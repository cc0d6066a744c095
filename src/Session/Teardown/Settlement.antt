-- ===== src/Session/Teardown/Settlement.antt =====
-- What a teardown leaves open.
use mathlib.Core.List.{Mem, mem-cons_self, mem-cons_of_mem, mem-append_right}
use mango_protocol.Common.{
  ◌&&◌, if◌then◌else◌, true, false, ℕ, ◌≤◌, ◌≡◌, refl, sym, Text, Dict, List, [], ◌∷◌, Bool, not,
  length, Option, none, some, Option-cases, Bool-cases, inl, inr, Result, err, get, list_eq, arith,
}
use mango_protocol.Libs.{Libs}
use mango_protocol.Wire.Error.{RemoteError}
use mango_protocol.Session.State.{
  SessionDriver, SessionState, Teardown, local, peer_frame, port, PortClosure, PendingRequest,
  ActiveRequest, RemotePeer, Shared,
}
use mango_protocol.Session.Shared.{settle_ready, retain}
use mango_protocol.Session.Teardown.{
  outcome_of, closed_error, pending_error, fail_pending, tokens, teardown,
}

-- The close that a port is sent: this side's own, once the writer has given the port back.
abbrev pub sent_close : Teardown → Bool → Option (ℕ × Option Text)
sent_close (local code reason) true = some (code, reason)
sent_close _ _ = none

close_sent :
    (reason : Teardown) (flushed : Bool)
    → (if flushed && (outcome_of reason).close_port
        then some ((outcome_of reason).code, (outcome_of reason).reason)
        else none)
      ≡ sent_close reason flushed
unfolding outcome_of
close_sent (local code reason) true = refl
close_sent (local code reason) false = refl
close_sent (peer_frame code reason) true = refl
close_sent (peer_frame code reason) false = refl
close_sent (port (PortClosure.closed code reason)) true = refl
close_sent (port (PortClosure.closed code reason)) false = refl
close_sent (port (PortClosure.protocol_error error code)) true = refl
close_sent (port (PortClosure.protocol_error error code)) false = refl

retain-length : (keep : ℕ → Bool) (xs : List ℕ) → length (retain keep xs) ≤ length xs
unfolding retain
retain-length keep [] = omega arith
retain-length keep (x ∷ xs) = ground (arith, retain-length keep xs)

token_of :
    (id : Text) (active : Dict Text ActiveRequest) (request : ActiveRequest)
    → get id active ≡ some request
    → Mem request.cancel (tokens active)
unfolding get tokens
token_of id [] request h = absurd (ground arith)
token_of id ((i, r) ∷ active) request h = elim (Bool-cases (list_eq.beq i id)) [
  | inl same ↦ let e : r ≡ request = ground (arith, same) in rw (sym e) mem-cons_self
  | inr other ↦ mem-cons_of_mem _ (token_of id active request (ground (arith, other)))
]

module _ ⦃L : Libs⦄ where
  reply_of :
      (code : ℕ) (reason : Option Text) (id : Text) (pending : Dict Text PendingRequest)
      (request : PendingRequest)
      → get id pending ≡ some request
      → Mem
          (request.reply, err (pending_error code reason id request.method))
          (fail_pending code reason pending)
  unfolding get fail_pending
  reply_of code reason id [] request h = absurd (ground arith)
  reply_of code reason id ((i, r) ∷ pending) request h = elim (Bool-cases (list_eq.beq i id)) [
    | inl same ↦
        let e : r ≡ request = ground (arith, same) in
        let k : i ≡ id = (list_eq.beq_iff i id).0 same in rw (sym e, sym k) mem-cons_self
    | inr other ↦
        mem-cons_of_mem _ (reply_of code reason id pending request (ground (arith, other)))
  ]

  -- What is left of a session after its teardown.
  pub record IsSettled (d : SessionDriver L) (reason : Teardown) (d' : SessionDriver L)
      : Type 0 where
    pub is_closed : d'.shared.state ≡ SessionState.closed
    pub kept_ready :
        (o : Result (RemotePeer L) (RemoteError L))
        → d.shared.ready ≡ some o
        → d'.shared.ready ≡ some o
    pub failed_ready :
        d.shared.ready ≡ none
        → d'.shared.ready
          ≡ some (err (closed_error (outcome_of reason).code (outcome_of reason).reason))
    pub replied :
        (id : Text) (request : PendingRequest)
        → get id d.pending ≡ some request
        → Mem
            (
              request.reply,
              err (
                  pending_error
                    (outcome_of reason).code
                    (outcome_of reason).reason
                    id
                    request.method),
            )
            d'.replies
    pub told :
        (id : Text) (request : ActiveRequest)
        → get id d.tracking.active ≡ some request
        → Mem request.cancel d'.cancelled
    pub none_pending : d'.pending ≡ []
    pub silent : d'.enqueued ≡ d.enqueued

  settle_ready-some :
      (o : Result (RemotePeer L) (RemoteError L)) (s : Shared L)
      (r : Result (RemotePeer L) (RemoteError L))
      → s.ready ≡ some r
      → (settle_ready o s).ready ≡ some r
  unfolding settle_ready
  settle_ready-some o s r h = ground (arith, h)

  settle_ready-none :
      (o : Result (RemotePeer L) (RemoteError L)) (s : Shared L)
      → s.ready ≡ none
      → (settle_ready o s).ready ≡ some o
  unfolding settle_ready
  settle_ready-none o s h = ground (arith, h)

  settle_ready_state :
      (o : Result (RemotePeer L) (RemoteError L)) (s : Shared L)
      → (settle_ready o s).state ≡ s.state
  unfolding settle_ready
  settle_ready_state o s = elim (Option-cases s.ready) [
    | inl e ↦ ground (arith, e)
    | inr (r, e) ↦ ground (arith, e)
  ]

  -- Whatever ends a session: it is closed; `ready` keeps the outcome it had, and fails with the
  -- close code if it had none; every pending request is failed with the close code, and none stays
  -- pending; the token of every active request is cancelled; no frame is enqueued any more; the
  -- closure that is published is the one returned, and it counts no more unfinished handlers than
  -- there were tasks. The port is sent a close, with the same code and reason, exactly when this side
  -- ended the session and the writer gave the port back.
  pub teardown-IsSettled :
      (d : SessionDriver L) (reason : Teardown) (ends_in_time : ℕ → Bool) (flushed : Bool)
      → IsSettled d reason (teardown d reason ends_in_time flushed).0
        × ((teardown d reason ends_in_time flushed).0.shared.closure
            ≡ some (teardown d reason ends_in_time flushed).1.0)
        × ((teardown d reason ends_in_time flushed).1.0.unfinished_handlers
            ≤ length d.tracking.tasks)
        × ((teardown d reason ends_in_time flushed).1.1 ≡ sent_close reason flushed)
  unfolding teardown
  teardown-IsSettled d reason ends_in_time flushed = (
    record {
      is_closed = settle_ready_state _ (record d.shared { state = SessionState.closed });
      kept_ready = λ o h. settle_ready-some _ (record d.shared { state = SessionState.closed }) o h;
      failed_ready = λ h. settle_ready-none _ (record d.shared { state = SessionState.closed }) h;
      replied = λ id request h. mem-append_right d.replies (reply_of _ _ id d.pending request h);
      told = λ id request h. mem-append_right d.cancelled (token_of id d.tracking.active request h);
      none_pending = refl;
      silent = refl;
    },
    refl,
    retain-length (λ task. not (ends_in_time task)) d.tracking.tasks,
    close_sent reason flushed,
  )
