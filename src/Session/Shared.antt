-- ===== src/Session/Shared.antt =====
-- What a handle and the driver share: crates/mango-protocol/src/session/shared.rs, on a machine with
-- 64-bit `usize`.
use mango_protocol.Common.{
  ℕ, ◌+◌, ◌%◌, ◌^◌, min, Text, List, [], ◌∷◌, ◌++◌, Bool, not, length, map, Option, none, some,
  if◌then◌else◌, Result, ok, err, insert, list_eq,
}
use mango_protocol.Libs.{Libs}
use mango_protocol.Wire.Error.{
  lit, RemoteError, remote_error, with_detail, is_too_large, codec_error_text,
}
use mango_protocol.Wire.Frame.{Frame, Event, Limits}
use mango_protocol.Codec.Serde.{Serde}
use mango_protocol.Codec.Limits.{default_max_frame_bytes}
use mango_protocol.Codec.Ndjson.{encode_frame_bytes}
use mango_protocol.Session.State.{format, RemotePeer, Shared, SessionDriver, is_ready}

abbrev pub default_max_in_flight : ℕ
default_max_in_flight = 256

-- `Vec::retain`
unfoldable pub retain : {A : Type 0} → (A → Bool) → List A → List A
retain keep [] = []
retain keep (x ∷ xs) = if keep x then x ∷ retain keep xs else retain keep xs

abbrev pub limits_of : {L : Libs} → Shared L → Option Limits
limits_of shared = elim shared.remote [ none ↦ none | some remote ↦ remote.limits ]

unfoldable pub remote_limit : Option Limits → ℕ
remote_limit none = default_max_frame_bytes
remote_limit (some limits) = elim limits.max_frame_bytes [
  | none ↦ default_max_frame_bytes
  | some bytes ↦ bytes
]

unfoldable pub send_limit_bytes : {L : Libs} → Shared L → ℕ
unfolding remote_limit
send_limit_bytes shared = min shared.local_max_frame_bytes (remote_limit (limits_of shared))

unfoldable pub remote_max_in_flight : {L : Libs} → Shared L → ℕ
remote_max_in_flight shared = elim (limits_of shared) [
  | none ↦ default_max_in_flight
  | some limits ↦ elim limits.max_in_flight [ none ↦ default_max_in_flight | some count ↦ count ]
]

-- `settle_ready`: only the first outcome is kept.
unfoldable pub settle_ready :
    {L : Libs} → Result (RemotePeer L) (RemoteError L) → Shared L → Shared L
settle_ready outcome shared = elim shared.ready [
  | none ↦ record shared { ready = some outcome }
  | some _ ↦ shared
]

module _ ⦃L : Libs⦄ where
  unfoldable pub next_request_id : Shared L → Shared L × Text
  next_request_id shared =
      let sequence = (shared.request_sequence + 1) % 2 ^ 64 in
      (
        record shared { request_sequence = sequence },
        format (shared.request_id_prefix ∷ lit "-" ∷ L.display sequence ∷ []),
      )

  unfoldable pub register_handler : Shared L → Text → ℕ → Shared L × (Text × ℕ)
  register_handler shared method handler =
      let generation = shared.next_generation in
      (
        record shared {
          next_generation = (generation + 1) % 2 ^ 64;
          handlers = insert method (generation, handler) shared.handlers;
        },
        (method, generation),
      )

  -- `subscribe_events` and `subscribe_pongs`, with the channel that the runtime makes.
  abbrev pub subscribe_events : Shared L → ℕ → Shared L
  subscribe_events shared channel = record shared {
    event_subscribers = shared.event_subscribers ++ channel ∷ [];
  }

  abbrev pub subscribe_pongs : Shared L → ℕ → Shared L
  subscribe_pongs shared channel = record shared {
    pong_subscribers = shared.pong_subscribers ++ channel ∷ [];
  }

  -- `fan_out_event` and `fan_out_pong`; `alive` tells which receivers still exist.
  unfoldable pub fan_out_event : (ℕ → Bool) → SessionDriver L → Event L → SessionDriver L
  unfolding is_ready
  fan_out_event alive d event =
      if not (is_ready d.shared.state)
      then d
      else let kept = retain alive d.shared.event_subscribers in
        record d {
          shared = record d.shared { event_subscribers = kept };
          events = d.events ++ map (λ subscriber. (subscriber, event)) kept;
        }

  unfoldable pub fan_out_pong : (ℕ → Bool) → SessionDriver L → SessionDriver L
  fan_out_pong alive d =
      let kept = retain alive d.shared.pong_subscribers in
      record d { shared = record d.shared { pong_subscribers = kept }; pongs = d.pongs ++ kept }

module _ ⦃L : Libs⦄ ⦃S : Serde L⦄ where
  unfoldable pub encoded_length : Frame L → ℕ → ℕ
  encoded_length frame limit = elim (S.to_vec frame) [ ok bytes ↦ length bytes | err _ ↦ limit + 1 ]

  unfoldable pub frame_too_large : Text → ℕ → ℕ → RemoteError L
  frame_too_large what bytes limit =
      with_detail
        (with_detail
          (remote_error (lit "FRAME_TOO_LARGE") (
            format (
              what
              ∷ lit " encodes to "
              ∷ L.display bytes
              ∷ lit " bytes; the session limit is "
              ∷ L.display limit
              ∷ lit " bytes."
              ∷ [])))
          (lit "bytes") (L.number_value bytes))
        (lit "limit") (L.number_value limit)

  unfoldable pub assert_fits : Shared L → Frame L → Text → Result (Unit {0}) (RemoteError L)
  unfolding is_too_large frame_too_large
  assert_fits shared frame what =
      let limit = send_limit_bytes shared in
      elim (encode_frame_bytes frame limit) [
        | ok bytes ↦ ok tt
        | err error ↦
            if is_too_large error.kind
            then err (frame_too_large what (encoded_length frame limit) limit)
            else err (
                remote_error (lit "INTERNAL")
                  (format (what ∷ lit " failed to encode: " ∷ codec_error_text error ∷ [])))
      ]
