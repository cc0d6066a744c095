-- ===== src/Transports/Ndjson/Farewell.antt =====
-- The farewell of a port: which close codes go out, and with which reason.
use mango_protocol.Common.{
  ℕ, zero, suc, ◌≤◌, ◌≡◌, refl, sym, ap, err, Text, Bytes, [], ◌∷◌, ◌++◌, false, ltb, leb, leb→le,
  if◌then◌else◌, length, length-take, take, Option, none, some, Bool-cases, ok, Result-cases, inl,
  inr, arith,
}
use mango_protocol.Libs.{Libs}
use mango_protocol.Wire.Error.{CodecError}
use mango_protocol.Wire.Close.{min_close_code, max_close_code}
use mango_protocol.Wire.Frame.{Frame}
use mango_protocol.Validate.Grammar.{max_reason_chars}
use mango_protocol.Validate.Checks.{validate}
use mango_protocol.Validate.Schema.{validate_iff}
use mango_protocol.Codec.Limits.{min_max_frame_bytes}
use mango_protocol.Codec.Serde.{Serde}
use mango_protocol.Codec.Ndjson.{encode_frame_bytes, encode_line}
use mango_protocol.Codec.Ndjson.RoundTrip.{encode-Encoded, check_ceiling_ok}
use mango_protocol.Transports.Ndjson.{clamp_reason, clamp_option, or_bare, close_line}

-- A reason as it stands in a `close` frame.
abbrev pub IsClamped : Option Text → Type 0
IsClamped none = Unit {0}
IsClamped (some reason) = length reason ≤ max_reason_chars

-- At any length, so that the 1024 stays a name.
cut_fits :
    (n : ℕ) (reason : Text) → length (if leb (length reason) n then reason else take n reason) ≤ n
cut_fits n reason = elim (Bool-cases (leb (length reason) n)) [
  | inl short ↦ rw short (leb→le (length reason) n short)
  | inr long ↦ rw long (rw (length-take n reason) (omega arith))
]

-- The reason as far as it fits into a `close` frame.
abbrev pub cut : Option Text → Option Text
cut none = none
cut (some reason) = some (take max_reason_chars reason)

take_short : (n : ℕ) (s : Text) → length s ≤ n → take n s ≡ s
take_short zero [] h = refl
take_short zero (c ∷ s) h = absurd (ground arith)
take_short (suc n) [] h = refl
take_short (suc n) (c ∷ s) h = ap (◌∷◌ c) (take_short n s (omega arith))

cut_text :
    (n : ℕ) (reason : Text)
    → (if leb (length reason) n then reason else take n reason) ≡ take n reason
cut_text n reason = elim (Bool-cases (leb (length reason) n)) [
  | inl short ↦ rw short (sym (take_short n reason (leb→le (length reason) n short)))
  | inr long ↦ rw long refl
]

clamp_option-cut : (reason : Option Text) → clamp_option reason ≡ cut reason
unfolding clamp_option clamp_reason
clamp_option-cut none = refl
clamp_option-cut (some reason) = ap some (cut_text max_reason_chars reason)

clamp_IsClamped : (reason : Option Text) → IsClamped (clamp_option reason)
unfolding clamp_option clamp_reason
clamp_IsClamped none = tt
clamp_IsClamped (some reason) = cut_fits max_reason_chars reason

module _ ⦃L : Libs⦄ ⦃S : Serde L⦄ where
  -- A `close` frame without a reason is written in few bytes, whatever its code.
  abbrev pub WritesBare : Type 0
  WritesBare =
      (code : ℕ)
      → code ≤ max_close_code
      → (bytes : Bytes) × (S.to_vec (Frame.close (record { code = code; reason = none }))
          ≡ ok bytes)
        × (length bytes ≤ min_max_frame_bytes)

  abbrev pub IsCloseCode : ℕ → Type 0
  IsCloseCode code = (min_close_code ≤ code) × (code ≤ max_close_code)

  -- A farewell that goes out: the frame with this code, and the reason cut to its length where the
  -- line with it fits, and none where it does not.
  pub record Farewell (code : ℕ) (reason : Option Text) (max : ℕ) : Type 0 where
    pub said : Option Text
    pub line : Bytes
    pub out :
        close_line code reason max
        ≡ some (Frame.close (record { code = code; reason = said }), line)
    pub encoded : encode_line (Frame.close (record { code = code; reason = said })) max ≡ ok line
    pub kept :
        (full : Bytes)
        → encode_line (Frame.close (record { code = code; reason = cut reason })) max ≡ ok full
        → said ≡ cut reason
    pub dropped :
        (e : CodecError)
        → encode_line (Frame.close (record { code = code; reason = cut reason })) max ≡ err e
        → said ≡ none
    pub clamped : IsClamped said

  bare_ok :
      (code max : ℕ)
      → WritesBare
      → min_max_frame_bytes ≤ max
      → IsCloseCode code
      → (line : Bytes) × (encode_line (Frame.close (record { code = code; reason = none })) max
          ≡ ok line)
  unfolding encode_line encode_frame_bytes
  bare_ok code max writes floor (lo, hi) =
      let (bytes, w, small) = writes code hi in
      let valid : validate (Frame.close (record { code = code; reason = none })) ≡ ok tt =
        (validate_iff (Frame.close (record { code = code; reason = none }))).1 ((lo, hi), tt) in
      let fits : ltb max (length bytes) ≡ false = ground arith in
      (bytes ++ 10 ∷ [], rw (check_ceiling_ok max floor, valid, w, fits) refl)

  encoded_code :
      (code max : ℕ) (reason : Option Text) (line : Bytes)
      → encode_line (Frame.close (record { code = code; reason = reason })) max ≡ ok line
      → IsCloseCode code
  unfolding encode_line
  encoded_code code max reason line h =
      elim (Result-cases
        (encode_frame_bytes (Frame.close (record { code = code; reason = reason })) max)) [
          | inr (x, e) ↦ absurd (ground (arith, e))
          | inl (bytes, e) ↦
              let v =
                encode-Encoded (Frame.close (record { code = code; reason = reason })) max bytes
                  e in
              ((validate_iff (Frame.close (record { code = code; reason = reason }))).0 v.valid).0
        ]

  Farewell-out :
      (code max : ℕ) (reason : Option Text)
      → WritesBare
      → min_max_frame_bytes ≤ max
      → IsCloseCode code
      → Farewell code reason max
  unfolding close_line or_bare
  Farewell-out code max reason writes floor valid =
      elim (Result-cases
        (encode_line (Frame.close (record { code = code; reason = clamp_option reason })) max)) [
          | inl (line, e) ↦ record {
            said = clamp_option reason;
            line = line;
            out = rw e refl;
            encoded = e;
            kept = λ full k. clamp_option-cut reason;
            dropped =
                λ x k. let same = clamp_option-cut reason in absurd (ground (arith, e, k, same));
            clamped = clamp_IsClamped reason;
          }
          | inr (x, e) ↦
              let (line, b) = bare_ok code max writes floor valid in
              record {
                said = none;
                line = line;
                out = rw e (rw b refl);
                encoded = b;
                kept = λ full k.
                    let same = clamp_option-cut reason in absurd (ground (arith, e, k, same));
                dropped = λ y k. refl;
                clamped = tt;
              }
        ]

  -- Under a ceiling that a port may have, a close code from 4000 to 4999 always goes out, in a line
  -- that `encode_line` wrote: with the reason cut to 1024 characters or, where that does not fit,
  -- without one. Any other code gives no line. This needs the writer to spend few bytes on a `close`
  -- frame without a reason.
  pub close_line_lem :
      (code max : ℕ) (reason : Option Text)
      → WritesBare
      → min_max_frame_bytes ≤ max
      → (IsCloseCode code → Farewell code reason max)
        × ((IsCloseCode code → ⊥) → close_line code reason max ≡ none)
  unfolding close_line or_bare
  close_line_lem code max reason writes floor = (
    Farewell-out code max reason writes floor,
    λ bad.
        elim (Result-cases
          (encode_line (Frame.close (record { code = code; reason = clamp_option reason })) max)) [
            | inl (line, e) ↦ absurd (bad (encoded_code code max _ line e))
            | inr (x, e) ↦
                elim (Result-cases
                  (encode_line (Frame.close (record { code = code; reason = none })) max)) [
                    | inl (line, b) ↦ absurd (bad (encoded_code code max _ line b))
                    | inr (y, b) ↦ rw e (rw b refl)
                  ]
          ],
  )
