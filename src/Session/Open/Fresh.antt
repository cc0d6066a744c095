-- ===== src/Session/Open/Fresh.antt =====
-- What holds of a session that has just been opened.
use mango_protocol.Common.{
  ℕ, ◌^◌, ◌≤◌, ◌<◌, ◌≡◌, ◌≢◌, ◌↔◌, refl, ap, subst, sym, Text, List, [], ◌∷◌, Option, none, some,
  arith, list_eq,
}
use mango_protocol.Libs.{Libs}
use mango_protocol.Validate.Grammar.{min_announced_in_flight}
use mango_protocol.Validate.Schema.{IfPresent}
use mango_protocol.Codec.Limits.{check_at_least, check_max_frame_bytes, min_max_frame_bytes}
use mango_protocol.Session.State.{Shared}
use mango_protocol.Session.Dispatch.Linked.{idle}
use mango_protocol.Session.Dispatch.Accounts.{IsTracking, accounted, answers}
use mango_protocol.Session.Driver.Handshake.{Agreed, view}
use mango_protocol.Session.Shared.{register_handler}
use mango_protocol.Session.Options.{SessionOptions, min_open_stream_keys}
use mango_protocol.Session.Open.{
  Opened, check_ceiling, narrowed, cadence, register_all, new_shared, opened, open_session,
}

check_at_least_iff :
    (value floor out : ℕ)
    → (check_at_least value floor ≡ some out) ↔ ((floor ≤ value) × (out ≡ value))
unfolding check_at_least
check_at_least_iff value floor out = (λ h. ground (arith, h), λ h. ground (arith, h.0, h.1))

check_ceiling_iff :
    (ceiling out : Option ℕ)
    → (check_ceiling ceiling ≡ some out)
      ↔ (IfPresent (λ n. min_max_frame_bytes ≤ n) ceiling × (out ≡ ceiling))
unfolding check_ceiling check_max_frame_bytes check_at_least
check_ceiling_iff none out = (λ h. ground (arith, h), λ h. ground (arith, h.1))
check_ceiling_iff (some n) out = (λ h. ground (arith, h), λ h. ground (arith, h.0, h.1))

-- A value that is checked first, in a chain that stops at the first refusal.
check_iff :
    {A B : Type 0} (m : Option A) (P : Type 0) (a : A) (g : A → Option B) (out : B)
    → ((x : A) → (m ≡ some x) ↔ (P × (x ≡ a)))
    → (elim m [ none ↦ none | some x ↦ g x ] ≡ some out) ↔ (P × (g a ≡ some out))
check_iff none P a g out all = (λ h. ground (arith, h), λ h. ground (arith, (all a).1 (h.0, refl)))
check_iff (some x) P a g out all =
    let k = (all x).0 refl in
    (λ h. (k.0, subst (λ y. g y ≡ some out) k.1 h), λ h. subst (λ y. g y ≡ some out) (sym k.1) h.1)

narrowed-floor :
    (session port : Option ℕ)
    → IfPresent (λ n. min_max_frame_bytes ≤ n) session
    → IfPresent (λ n. min_max_frame_bytes ≤ n) port
    → (min_max_frame_bytes ≤ narrowed session port)
      × IfPresent (λ n. narrowed session port ≤ n) session
      × IfPresent (λ n. narrowed session port ≤ n) port
unfolding narrowed
narrowed-floor none none s p = (ground arith, tt, tt)
narrowed-floor (some a) none s p = (s, ground arith, tt)
narrowed-floor none (some b) s p = (p, tt, ground arith)
narrowed-floor (some a) (some b) s p = (ground arith, ground arith, ground arith)

cadence-positive : (interval : Option ℕ) → cadence interval ≢ some 0
unfolding cadence
cadence-positive none h = ground (arith, h)
cadence-positive (some n) h = ground (arith, h)

module _ ⦃L : Libs⦄ where
  -- What the registration of handlers leaves alone.
  record Kept (s t : Shared L) : Type 0 where
    state : t.state ≡ s.state
    remote : t.remote ≡ s.remote
    ready : t.ready ≡ s.ready
    protocol : t.local_protocol ≡ s.local_protocol
    counted : t.in_flight ≡ s.in_flight
    in_flight : t.max_in_flight ≡ s.max_in_flight
    stream_keys : t.max_stream_keys ≡ s.max_stream_keys
    ceiling : t.local_max_frame_bytes ≡ s.local_max_frame_bytes

  register_all-Kept : (handlers : List (Text × ℕ)) (s : Shared L) → Kept s (register_all handlers s)
  unfolding register_all register_handler
  register_all-Kept [] s = record {
    state = refl;
    remote = refl;
    ready = refl;
    protocol = refl;
    counted = refl;
    in_flight = refl;
    stream_keys = refl;
    ceiling = refl;
  }
  register_all-Kept ((method, handler) ∷ handlers) s =
      let k = register_all-Kept handlers (register_handler s method handler).0 in
      record {
        state = k.state;
        remote = k.remote;
        ready = k.ready;
        protocol = k.protocol;
        counted = k.counted;
        in_flight = k.in_flight;
        stream_keys = k.stream_keys;
        ceiling = k.ceiling;
      }

  -- The floors that a session is opened with.
  pub record IsAllowed (ceiling : Option ℕ) (options : SessionOptions L) : Type 0 where
    pub session : IfPresent (λ n. min_max_frame_bytes ≤ n) options.max_frame_bytes
    pub port : IfPresent (λ n. min_max_frame_bytes ≤ n) ceiling
    pub in_flight : 1 ≤ options.max_in_flight
    pub stream_keys : 1 ≤ options.max_stream_keys

  -- A fresh session: its frame limit widens neither ceiling, no request is in flight, the handshake
  -- is still to come, and a timer that ticks has a period.
  pub record IsFresh (ceiling : Option ℕ) (options : SessionOptions L) (o : Opened L) : Type 0 where
    pub floor : min_max_frame_bytes ≤ o.driver.shared.local_max_frame_bytes
    pub narrows_option :
        IfPresent (λ n. o.driver.shared.local_max_frame_bytes ≤ n) options.max_frame_bytes
    pub narrows_port : IfPresent (λ n. o.driver.shared.local_max_frame_bytes ≤ n) ceiling
    pub in_flight : 1 ≤ o.driver.shared.max_in_flight
    pub stream_keys : 1 ≤ o.driver.shared.max_stream_keys
    pub tracking : IsTracking o.driver
    pub unanswered : (id : Text) → accounted id o.driver ≡ 0
    pub agreed : Agreed (view o.driver)
    pub ticking : o.liveness_interval ≢ some 0

  open_iff :
      (ceiling : Option ℕ) (options : SessionOptions L) (o : Opened L)
      → (open_session ceiling options ≡ some o) ↔ (
          IsAllowed ceiling options
          × (o
              ≡ opened options (
                  new_shared options
                    (narrowed options.max_frame_bytes ceiling)
                    options.max_in_flight
                    options.max_stream_keys)))
  unfolding open_session
  open_iff ceiling options o =
      let keys =
        check_iff _ _ options.max_stream_keys _ o
          (check_at_least_iff options.max_stream_keys min_open_stream_keys) in
      let in_flight =
        check_iff _ _ options.max_in_flight _ o
          (check_at_least_iff options.max_in_flight min_announced_in_flight) in
      let port = check_iff _ _ ceiling _ o (check_ceiling_iff ceiling) in
      let session =
        check_iff _ _ options.max_frame_bytes _ o (check_ceiling_iff options.max_frame_bytes) in
      (
        λ h.
            let a = session.0 h in
            let b = port.0 a.1 in
            let c = in_flight.0 b.1 in
            let d = keys.0 c.1 in
            (
              record { session = a.0; port = b.0; in_flight = c.0; stream_keys = d.0 },
              ground (arith, d.1),
            ),
        λ h. session.1 (
          h.0.session,
          port.1
              (h.0.port, in_flight.1 (h.0.in_flight, keys.1 (h.0.stream_keys, ap some (sym h.1)))),
        ),
      )

  opened-IsFresh :
      (ceiling : Option ℕ) (options : SessionOptions L)
      → options.max_in_flight < 2 ^ 64
      → IsAllowed ceiling options
      → IsFresh ceiling options (
          opened options (
            new_shared options
              (narrowed options.max_frame_bytes ceiling)
              options.max_in_flight
              options.max_stream_keys))
  unfolding accounted answers mango_protocol.Common.get
  opened-IsFresh ceiling options machine allowed =
      let s =
        new_shared options (narrowed options.max_frame_bytes ceiling) options.max_in_flight
          options.max_stream_keys in
      let k = register_all-Kept options.handlers s in
      let n = narrowed-floor options.max_frame_bytes ceiling allowed.session allowed.port in
      record {
        floor = subst (λ m. min_max_frame_bytes ≤ m) (sym k.ceiling) n.0;
        narrows_option =
            subst (λ m. IfPresent (λ n. m ≤ n) options.max_frame_bytes) (sym k.ceiling) n.1;
        narrows_port = subst (λ m. IfPresent (λ n. m ≤ n) ceiling) (sym k.ceiling) n.2;
        in_flight = subst (λ m. 1 ≤ m) (sym k.in_flight) allowed.in_flight;
        stream_keys = subst (λ m. 1 ≤ m) (sym k.stream_keys) allowed.stream_keys;
        tracking = record {
          linked = idle;
          counted = k.counted;
          agreed = omega arith;
          machine = subst (λ m. m < 2 ^ 64) (sym k.in_flight) machine;
        };
        unanswered = λ id. refl;
        agreed = rw (k.state) (k.remote, k.ready);
        ticking = cadence-positive options.liveness_interval;
      }

  -- `open` gives a session exactly where the frame limits that are given, the requests at once and
  -- the stream keys meet their floors. The session that it gives has a frame limit at the floor or
  -- above, and above neither the option nor the port's ceiling; it has the invariants of the
  -- handshake and of the request tables, has answered nothing, and never ticks without a period.
  pub open_session-IsFresh :
      (ceiling : Option ℕ) (options : SessionOptions L)
      → options.max_in_flight < 2 ^ 64
      → (((o : Opened L) × (open_session ceiling options ≡ some o)) ↔ IsAllowed ceiling options)
        × ((o : Opened L) → open_session ceiling options ≡ some o → IsFresh ceiling options o)
  open_session-IsFresh ceiling options machine = (
    (
      λ h. ((open_iff ceiling options h.0).0 h.1).0,
      λ allowed. (_, (open_iff ceiling options _).1 (allowed, refl)),
    ),
    λ o h.
        let k = (open_iff ceiling options o).0 h in
        subst (IsFresh ceiling options) (sym k.1) (opened-IsFresh ceiling options machine k.0),
  )
