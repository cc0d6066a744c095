-- ===== src/Session/Emit/Sequences.antt =====
-- The sequence numbers of events.
use mango_protocol.Common.{
  ℕ, ◌+◌, ◌%◌, ◌^◌, ◌<◌, ◌≡◌, Bool, true, false, length, Option, none, some, Result, ok,
  contains_key, list_eq, ◌⊎◌,
}
use mango_protocol.Libs.{Libs}
use mango_protocol.Wire.Error.{RemoteError}
use mango_protocol.Wire.Frame.{Frame}
use mango_protocol.Codec.Serde.{Serde}
use mango_protocol.Session.State.{Shared}
use mango_protocol.Session.Shared.{assert_fits}
use mango_protocol.Session.Emit.{EventInput, stream_key, event_frame, event_name, advance}

-- The counter of a key after an event on it: up by one, or released at the end of the stream.
abbrev pub following : Bool → ℕ → ℕ
following true seq = 0
following false seq = (seq + 1) % 2 ^ 64

module _ ⦃L : Libs⦄ ⦃S : Serde L⦄ where
  -- What one call of `emit` comes to.
  pub data Emitted (shared : Shared L) (input : EventInput L)
      : Shared L × (Option (Frame L) × Result Bool (RemoteError L)) → Type 0 where
    kept : (r : Result Bool (RemoteError L)) → Emitted shared input (shared, (none, r))
    sent :
        assert_fits shared (event_frame shared input) (event_name input) ≡ ok tt
        → (contains_key (stream_key input) shared.event_sequences ≡ true)
          ⊎ (length shared.event_sequences < shared.max_stream_keys)
        → Emitted shared input (
          record shared {
            event_sequences = advance input.ends (stream_key input) shared.event_sequences;
          },
          (some (event_frame shared input), ok true),
        )
