-- ===== src/Examples/Names.antt =====
-- Names, versions, close codes and frames.
use mango_protocol.Common.{
  ℕ, ◌≤◌, ◌≡◌, refl, ◌↔◌, ◌⊎◌, Text, [], ◌∷◌, true, false, some, ok, length, none,
}
use mango_protocol.Wire.Error.{lit, CodecError, schema, is_schema}
use mango_protocol.Wire.Close.{
  min_close_code, max_close_code, close_code_for_codec_error, close_code_for_codec_error_lem,
  protocol_mismatch, contains, is_fatal_close_code,
}
use mango_protocol.Wire.Version.{
  protocol_version, ProtocolVersion, negotiate, negotiate_lem, compatible, mismatch,
}
use mango_protocol.Wire.Frame.{Frame}
use mango_protocol.Validate.Grammar.{
  is_valid_method_name, is_valid_error_code, is_valid_role, split, is_valid_segment, ends_with,
  max_name_chars, max_code_chars,
}
use mango_protocol.Validate.Checks.{validate}
use mango_protocol.Validate.Names.{
  MethodName, is_valid_method_name_iff, ErrorCode, is_valid_error_code_iff, RolePattern,
  is_valid_role_iff,
}
use mango_protocol.Validate.Schema.{ValidFrame, validate_iff}
use mango_protocol.Examples.{toy_libs}

-- `fs.read`
abbrev method : Text
method = 102 ∷ 115 ∷ 46 ∷ 114 ∷ 101 ∷ 97 ∷ 100 ∷ []

method_accepted : is_valid_method_name method ≡ true
unfolding is_valid_method_name split is_valid_segment ends_with
method_accepted = refl

is_valid_method_name_iff_example :
    (is_valid_method_name method ≡ true) ↔ ((length method ≤ max_name_chars) × MethodName method)
is_valid_method_name_iff_example = is_valid_method_name_iff method

-- `E_2`
abbrev error_code : Text
error_code = 69 ∷ 95 ∷ 50 ∷ []

is_valid_error_code_iff_example :
    (is_valid_error_code error_code ≡ true)
    ↔ ((length error_code ≤ max_code_chars) × ErrorCode error_code)
is_valid_error_code_iff_example = is_valid_error_code_iff error_code

-- `hub-`, which the documented pattern admits and the code refuses
abbrev role : Text
role = 104 ∷ 117 ∷ 98 ∷ 45 ∷ []

role_refused : is_valid_role role ≡ false
unfolding is_valid_role is_valid_segment ends_with
role_refused = refl

is_valid_role_iff_example :
    (is_valid_role role ≡ true)
    ↔ ((length role ≤ max_code_chars) × RolePattern role × (ends_with 45 role ≡ false))
is_valid_role_iff_example = is_valid_role_iff role

abbrev old_version : ProtocolVersion
old_version = record { major = 1; minor = 0 }

negotiate_lem_example :
    (negotiate protocol_version old_version ≡ negotiate old_version protocol_version)
    × ((m : ℕ)
        → (negotiate protocol_version old_version ≡ compatible m) ↔ (
            (protocol_version.major ≡ old_version.major)
            × (m ≤ protocol_version.minor)
            × (m ≤ old_version.minor)
            × ((m ≡ protocol_version.minor) ⊎ (m ≡ old_version.minor))))
    × ((c : ℕ) → negotiate protocol_version old_version ≡ mismatch c → c ≡ protocol_mismatch)
negotiate_lem_example = negotiate_lem protocol_version old_version

abbrev bad_hello : CodecError
bad_hello = record { kind = schema; message = []; frame_type = some (lit "hello") }

close_code_for_codec_error_lem_example :
    (min_close_code ≤ close_code_for_codec_error bad_hello)
    × (close_code_for_codec_error bad_hello ≤ max_close_code)
    × ((is_fatal_close_code (close_code_for_codec_error bad_hello) ≡ true)
        ↔ ((is_schema bad_hello.kind ≡ true) × (bad_hello.frame_type ≡ some (lit "hello"))))
close_code_for_codec_error_lem_example = close_code_for_codec_error_lem bad_hello

superseded_fatal : is_fatal_close_code 4409 ≡ true
unfolding is_fatal_close_code contains
superseded_fatal = refl

abbrev greeting : Frame toy_libs
greeting = Frame.hello (record {
  protocol = record { major = 1; minor = 1 };
  peer = record { name = 97 ∷ []; version = 49 ∷ []; role = 104 ∷ 117 ∷ 98 ∷ [] };
  capabilities = [];
  limits = some (record { max_frame_bytes = some 4096; max_in_flight = none });
})

validate_iff_example : (validate greeting ≡ ok tt) ↔ ValidFrame greeting
validate_iff_example = validate_iff greeting
