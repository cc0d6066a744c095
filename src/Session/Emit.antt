-- ===== src/Session/Emit.antt =====
-- `Session::emit`: crates/mango-protocol/src/session/handle.rs.
pub mod Sequences
use mango_protocol.Common.{
  ℕ, ◌+◌, ◌%◌, ◌^◌, Text, List, [], ◌∷◌, ◌++◌, Bool, true, false, not, ◌&&◌, leb, length, Option,
  none, some, if◌then◌else◌, Result, ok, err, get, insert, remove, contains_key, list_eq, Dict,
}
use mango_protocol.Libs.{Libs}
use mango_protocol.Wire.Error.{lit, RemoteError, remote_error, with_detail}
use mango_protocol.Wire.Frame.{Frame, end}
use mango_protocol.Codec.Serde.{Serde}
use mango_protocol.Session.State.{format, Shared, Command, is_ready}
use mango_protocol.Session.Shared.{assert_fits}

pub record EventInput (L : Libs) : Type 0 where
  pub topic : Text
  pub payload : L.Value
  pub stream_id : Option Text
  pub ends : Bool

abbrev pub stream_key : {L : Libs} → EventInput L → Text
stream_key input = elim input.stream_id [ none ↦ input.topic | some id ↦ id ]

unfoldable pub event_name : {L : Libs} → EventInput L → Text
event_name input = format (lit "Event \"" ∷ input.topic ∷ lit "\"" ∷ [])

-- `sequences.get(&key).copied().unwrap_or(0)`
unfoldable pub next_seq : Text → Dict Text ℕ → ℕ
next_seq key sequences = elim (get key sequences) [ none ↦ 0 | some seq ↦ seq ]

-- What a sent event does to the counters.
unfoldable pub advance : Bool → Text → Dict Text ℕ → Dict Text ℕ
advance ends key sequences =
    if ends
    then remove key sequences
    else insert key ((next_seq key sequences + 1) % 2 ^ 64) sequences

module _ ⦃L : Libs⦄ where
  unfoldable pub stream_key_refusal : Text → ℕ → RemoteError L
  stream_key_refusal key limit =
      with_detail
        (with_detail
          (with_detail
            (remote_error (lit "UNAVAILABLE") (
              format (
                lit "Stream key \""
                ∷ key
                ∷ lit "\" would be one past the "
                ∷ L.display limit
                ∷ lit " this session emits on at once. End a stream before starting another."
                ∷ [])))
            (lit "kind") (L.text_value (lit "stream_key_limit")))
          (lit "key") (L.text_value key))
        (lit "limit") (L.number_value limit)

  unfoldable pub event_frame : Shared L → EventInput L → Frame L
  event_frame shared input = Frame.evt (record {
    topic = input.topic;
    seq = next_seq (stream_key input) shared.event_sequences;
    stream_id = input.stream_id;
    payload = input.payload;
    ends = if input.ends then some end else none;
  })

module _ ⦃L : Libs⦄ ⦃S : Serde L⦄ where
  -- The frame is the one that is sent as a command, if one is. `gone` says that the driver is gone.
  unfoldable pub emit :
      Shared L → EventInput L → Bool → Shared L × (Option (Frame L) × Result Bool (RemoteError L))
  unfolding is_ready stream_key_refusal event_frame advance
  emit shared input gone =
      if not (is_ready shared.state)
      then (shared, (none, ok false))
      else if not (contains_key (stream_key input) shared.event_sequences)
          && leb shared.max_stream_keys (length shared.event_sequences)
      then (shared, (none, err (stream_key_refusal (stream_key input) shared.max_stream_keys)))
      else elim (assert_fits shared (event_frame shared input) (event_name input)) [
        | err error ↦ (shared, (none, err error))
        | ok _ ↦ if gone then (shared, (none, ok false)) else (
          record shared {
            event_sequences = advance input.ends (stream_key input) shared.event_sequences;
          },
          (some (event_frame shared input), ok true),
        )
      ]
