-- ===== src/Validate/Grammar.antt =====
-- The name grammars of crates/mango-protocol/src/validate.rs, and its limits.
use mango_protocol.Common.{
  ℕ, ◌+◌, ◌-◌, ◌^◌, Text, List, [], ◌∷◌, Bool, false, not, ◌&&◌, ◌||◌, ltb, leb, ◌==◌, in_range,
  if◌then◌else◌, length, all, starts_with, text_eq,
}
use mango_protocol.Wire.Error.{lit}

abbrev pub max_id_chars : ℕ
max_id_chars = 256

abbrev pub min_name_chars : ℕ
min_name_chars = 3

abbrev pub max_name_chars : ℕ
max_name_chars = 128

unfoldable pub method_name_pattern : Text
method_name_pattern = lit "^[a-z](?:[a-z0-9-]*[a-z0-9])?(?:\\.[a-z](?:[a-z0-9-]*[a-z0-9])?)+$"

abbrev pub max_code_chars : ℕ
max_code_chars = 64

unfoldable pub rpc_reserved_prefix : Text
unfolding lit
rpc_reserved_prefix = lit "rpc."

abbrev pub max_reason_chars : ℕ
max_reason_chars = 1024

abbrev pub min_announced_frame_bytes : ℕ
min_announced_frame_bytes = 4096

abbrev pub max_announced_frame_bytes : ℕ
max_announced_frame_bytes = 2147483647

abbrev pub min_announced_in_flight : ℕ
min_announced_in_flight = 1

abbrev pub max_announced_in_flight : ℕ
max_announced_in_flight = 2147483647

-- `usize::MAX` and `u32::MAX` of a 64-bit target
abbrev pub usize_max : ℕ
usize_max = 2 ^ 64 - 1

abbrev pub u32_max : ℕ
u32_max = 2 ^ 32 - 1

abbrev pub is_ascii_lowercase : ℕ → Bool
is_ascii_lowercase c = in_range b'a' b'z' c

abbrev pub is_ascii_uppercase : ℕ → Bool
is_ascii_uppercase c = in_range b'A' b'Z' c

abbrev pub is_ascii_digit : ℕ → Bool
is_ascii_digit c = in_range b'0' b'9' c

-- `str::ends_with` at a character
unfoldable pub ends_with : ℕ → Text → Bool
ends_with d [] = false
ends_with d (c ∷ []) = c == d
ends_with d (c ∷ e ∷ s) = ends_with d (e ∷ s)

abbrev pub is_segment_char : ℕ → Bool
is_segment_char c = is_ascii_lowercase c || is_ascii_digit c || c == b'-'

unfoldable pub is_valid_segment : Text → Bool
is_valid_segment [] = false
is_valid_segment (first ∷ rest) =
    if not (is_ascii_lowercase first)
    then false
    else if ends_with b'-' (first ∷ rest)
    then false
    else all is_segment_char (first ∷ rest)

abbrev pub push_char : ℕ → List Text → List Text
push_char c [] = (c ∷ []) ∷ []
push_char c (segment ∷ segments) = (c ∷ segment) ∷ segments

-- `str::split` at a character: the pieces between its occurrences, at least one
unfoldable pub split : ℕ → Text → List Text
split d [] = [] ∷ []
split d (c ∷ s) = if c == d then [] ∷ split d s else push_char c (split d s)

-- The loop over the segments after the first, and the test after it.
unfoldable pub check_rest : ℕ → List Text → Bool
check_rest count [] = leb 2 count
check_rest count (segment ∷ segments) =
    if not (is_valid_segment segment) then false else check_rest (count + 1) segments

unfoldable pub check_segments : List Text → Bool
unfolding check_rest
check_segments [] = false
check_segments (first ∷ segments) =
    if not (is_valid_segment first) then false else check_rest 1 segments

unfoldable pub is_valid_method_name : Text → Bool
unfolding check_segments
is_valid_method_name name =
    if ltb max_name_chars (length name) then false else check_segments (split b'.' name)

unfoldable pub is_reserved_method_name : Text → Bool
is_reserved_method_name name = starts_with rpc_reserved_prefix name

unfoldable pub rpc_discover : Text
unfolding lit
rpc_discover = lit "rpc.discover"

abbrev pub rpc_discover_minor : ℕ
rpc_discover_minor = 1

unfoldable pub is_defined_reserved_method : Text → ℕ → Bool
is_defined_reserved_method name effective_minor =
    text_eq name rpc_discover && leb rpc_discover_minor effective_minor

unfoldable pub is_valid_role : Text → Bool
is_valid_role role = in_range 1 max_code_chars (length role) && is_valid_segment role

abbrev pub is_code_char : ℕ → Bool
is_code_char c = is_ascii_uppercase c || is_ascii_digit c || c == b'_'

abbrev pub is_code_text : Text → Bool
is_code_text [] = false
is_code_text (first ∷ rest) = is_ascii_uppercase first && all is_code_char rest

unfoldable pub is_valid_error_code : Text → Bool
is_valid_error_code code =
    if not (in_range 1 max_code_chars (length code)) then false else is_code_text code
