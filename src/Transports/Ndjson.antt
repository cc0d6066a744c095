-- ===== src/Transports/Ndjson.antt =====
-- The port of every byte-oriented transport: crates/mango-protocol/src/transports/ndjson.rs. Here
-- are its receive half and the close line; Writer has the shared writer.
pub mod Writer
pub mod Delivery
pub mod Farewell
use mango_protocol.Common.{
  ℕ, zero, suc, Text, Bytes, List, [], ◌∷◌, ◌++◌, Bool, true, false, leb, if◌then◌else◌, length,
  take, Option, none, some, Result, ok, err,
}
use mango_protocol.Libs.{Libs}
use mango_protocol.Wire.Error.{CodecError, codec_error_text}
use mango_protocol.Wire.Close.{close_code_for_codec_error}
use mango_protocol.Wire.Frame.{Frame, Close}
use mango_protocol.Validate.Grammar.{max_reason_chars}
use mango_protocol.Codec.Limits.{default_max_frame_bytes, check_max_frame_bytes}
use mango_protocol.Codec.Serde.{Serde}
use mango_protocol.Codec.Ndjson.{encode_line}
use mango_protocol.Codec.Decoder.{LineDecoder, PushOutcome, new_decoder, push}
use mango_protocol.Session.State.{PortClosure}
use mango_protocol.Port.{Inbound}
use mango_protocol.Port.Channel.{Poll, pending, ready}

-- `NdjsonPort::new`, and the ceiling that `with_max_frame_bytes` sets; a panic is `none`.
abbrev pub new_ceiling : ℕ
new_ceiling = default_max_frame_bytes

unfoldable pub with_max_frame_bytes : ℕ → Option ℕ
with_max_frame_bytes max_frame_bytes = check_max_frame_bytes max_frame_bytes

unfoldable pub clamp_reason : Text → Text
clamp_reason reason =
    if leb (length reason) max_reason_chars then reason else take max_reason_chars reason

unfoldable pub clamp_option : Option Text → Option Text
unfolding clamp_reason
clamp_option none = none
clamp_option (some reason) = some (clamp_reason reason)

-- What a read of the transport gives; `chunk []` is the end of the file.
pub data Read : Type 0 where
  chunk : Bytes → Read
  failed : Text → Read

-- What the receive half asks of the shared writer.
pub data WriterCall : Type 0 where
  end : ℕ → Option Text → WriterCall
  shut_down : WriterCall

-- `calls` has the calls on the shared writer, in order.
pub record NdjsonRx (L : Libs) : Type 0 where
  pub decoder : LineDecoder
  pub pending : List (Frame L)
  pub closure : Option PortClosure
  pub calls : List WriterCall
  pub max_frame_bytes : ℕ
  pub terminal : Bool

module _ {L : Libs} where
  -- `NdjsonPort::split`
  unfoldable pub new_rx : ℕ → Option (NdjsonRx L)
  new_rx max_frame_bytes = elim (new_decoder max_frame_bytes) [
    | none ↦ none
    | some decoder ↦ some (record {
      decoder = decoder;
      pending = [];
      closure = none;
      calls = [];
      max_frame_bytes = max_frame_bytes;
      terminal = false;
    })
  ]

  abbrev pub call : WriterCall → NdjsonRx L → NdjsonRx L
  call c rx = record rx { calls = rx.calls ++ c ∷ [] }

  unfoldable pub refuse : CodecError → NdjsonRx L → NdjsonRx L
  refuse error rx =
      let code = close_code_for_codec_error error in
      call (end code (some (codec_error_text error)))
        (record rx { closure = some (PortClosure.protocol_error error code) })

  unfoldable pub on_eof : NdjsonRx L → NdjsonRx L
  on_eof rx = call shut_down (record rx { closure = some (PortClosure.closed none none) })

  unfoldable pub on_failure : Text → NdjsonRx L → NdjsonRx L
  on_failure error rx =
      call shut_down (record rx { closure = some (PortClosure.closed none (some error)) })

  -- `if let Some(error) = outcome.error { self.refuse(error) }`
  unfoldable pub refuse_if : Option CodecError → NdjsonRx L → NdjsonRx L
  unfolding refuse
  refuse_if none rx = rx
  refuse_if (some error) rx = refuse error rx

  -- The item that is there without a read, if there is one; `some none` is the end.
  unfoldable pub at_hand :
      List (Frame L) → Option PortClosure → NdjsonRx L → Option (NdjsonRx L × Option (Inbound L))
  at_hand (f ∷ frames) closure rx = some (record rx { pending = frames }, some (Inbound.frame f))
  at_hand [] (some closure) rx =
      some (record rx { closure = none; terminal = true }, some (Inbound.closed closure))
  at_hand [] none rx = if rx.terminal then some (rx, none) else none

module _ ⦃L : Libs⦄ ⦃S : Serde L⦄ where
  unfoldable pub decode_chunk : Bytes → NdjsonRx L → NdjsonRx L
  unfolding refuse_if
  decode_chunk bytes rx =
      let (decoder, outcome) = push rx.decoder bytes in
      refuse_if outcome.error
        (record rx { decoder = decoder; pending = rx.pending ++ outcome.frames })

  unfoldable pub on_read : Read → NdjsonRx L → NdjsonRx L
  unfolding decode_chunk on_eof on_failure
  on_read (chunk []) rx = on_eof rx
  on_read (chunk (b ∷ bytes)) rx = decode_chunk (b ∷ bytes) rx
  on_read (failed error) rx = on_failure error rx

  -- `recv` over the reads that are still to come; where they run out it waits.
  unfoldable pub recv : NdjsonRx L → List Read → NdjsonRx L × (List Read × Poll (Inbound L))
  unfolding at_hand on_read
  recv rx [] = elim (at_hand rx.pending rx.closure rx) [
    | some (rx', item) ↦ (rx', ([], ready item))
    | none ↦ (rx, ([], pending))
  ]
  recv rx (r ∷ reads) = elim (at_hand rx.pending rx.closure rx) [
    | some (rx', item) ↦ (rx', (r ∷ reads, ready item))
    | none ↦ recv (on_read r rx) reads
  ]

  -- What a number of calls of `recv` give.
  unfoldable pub recv_all : ℕ → NdjsonRx L → List Read → List (Poll (Inbound L))
  recv_all zero rx reads = []
  recv_all (suc n) rx reads =
      let (rx', (reads', item)) = recv rx reads in item ∷ recv_all n rx' reads'

  -- `encode_line(&frame).or_else(|_| encode_line(&bare))`, with the frame whose line it is
  unfoldable pub or_bare :
      Frame L
      → Frame L
      → Result Bytes CodecError
      → Result Bytes CodecError
      → Option (Frame L × Bytes)
  or_bare full bare (ok line) other = some (full, line)
  or_bare full bare (err _) (ok line) = some (bare, line)
  or_bare full bare (err _) (err _) = none

  -- The line of `write_close`, if the code may stand in a `close` frame.
  unfoldable pub close_line : ℕ → Option Text → ℕ → Option (Frame L × Bytes)
  unfolding clamp_option or_bare
  close_line code reason max_frame_bytes =
      let full = Frame.close (record { code = code; reason = clamp_option reason }) in
      let bare = Frame.close (record { code = code; reason = none }) in
      or_bare full bare (encode_line full max_frame_bytes) (encode_line bare max_frame_bytes)
