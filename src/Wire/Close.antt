-- ===== src/Wire/Close.antt =====
-- Close codes and the fatal set: crates/mango-protocol/src/close.rs.
use mango_protocol.Common.{
  ◌≡◌, ◌≤◌, ◌↔◌, arith, true, text_eq_iff, ap, ℕ, Text, text_eq, List, [], ◌∷◌, Bool, false, ◌&&◌,
  ◌||◌, ◌==◌, Option, none, some, if◌then◌else◌,
}
use mango_protocol.Wire.Error.{lit, CodecError, is_schema}

abbrev pub released : ℕ
released = 4000

abbrev pub protocol_error : ℕ
protocol_error = 4400

abbrev pub unauthorized : ℕ
unauthorized = 4401

abbrev pub forbidden : ℕ
forbidden = 4403

abbrev pub superseded : ℕ
superseded = 4409

abbrev pub protocol_mismatch : ℕ
protocol_mismatch = 4426

abbrev pub rate_limited : ℕ
rate_limited = 4429

abbrev pub internal : ℕ
internal = 4500

abbrev pub min_close_code : ℕ
min_close_code = 4000

abbrev pub max_close_code : ℕ
max_close_code = 4999

abbrev pub fatal : List ℕ
fatal = unauthorized ∷ forbidden ∷ superseded ∷ protocol_mismatch ∷ []

-- `[u16]::contains`
unfoldable pub contains : List ℕ → ℕ → Bool
contains [] c = false
contains (x ∷ xs) c = x == c || contains xs c

unfoldable pub is_fatal_close_code : ℕ → Bool
unfolding contains
is_fatal_close_code code = contains fatal code

unfoldable pub close_code_name : ℕ → Option Text
close_code_name code =
    if code == released
    then some (lit "RELEASED")
    else if code == protocol_error
    then some (lit "PROTOCOL_ERROR")
    else if code == unauthorized
    then some (lit "UNAUTHORIZED")
    else if code == forbidden
    then some (lit "FORBIDDEN")
    else if code == superseded
    then some (lit "SUPERSEDED")
    else if code == protocol_mismatch
    then some (lit "PROTOCOL_MISMATCH")
    else if code == rate_limited
    then some (lit "RATE_LIMITED")
    else if code == internal
    then some (lit "INTERNAL")
    else none

-- `frame_type.as_deref() == Some("hello")`
unfoldable pub names_hello : Option (List ℕ) → Bool
names_hello none = false
names_hello (some t) = text_eq t (lit "hello")

unfoldable pub close_code_for_codec_error : CodecError → ℕ
unfolding is_schema names_hello
close_code_for_codec_error error =
    if is_schema error.kind && names_hello error.frame_type
    then protocol_mismatch
    else protocol_error

names_hello_iff : (o : Option Text) → (names_hello o ≡ true) ↔ (o ≡ some (lit "hello"))
unfolding names_hello
names_hello_iff none = (λ h. absurd cc, λ h. absurd cc)
names_hello_iff (some t) =
    (λ h. ap some ((text_eq_iff t (lit "hello")).0 h), λ h. (text_eq_iff t (lit "hello")).1 cc)

-- A codec error closes a session with a code of the protocol's range, which is fatal exactly when
-- the error is a schema failure of a hello.
pub close_code_for_codec_error_lem :
    (error : CodecError)
    → (min_close_code ≤ close_code_for_codec_error error)
      × (close_code_for_codec_error error ≤ max_close_code)
      × ((is_fatal_close_code (close_code_for_codec_error error) ≡ true)
          ↔ ((is_schema error.kind ≡ true) × (error.frame_type ≡ some (lit "hello"))))
unfolding close_code_for_codec_error is_fatal_close_code contains
close_code_for_codec_error_lem error =
    (ground arith, ground arith, ground (arith, names_hello_iff error.frame_type))
