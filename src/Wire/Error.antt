-- ===== src/Wire/Error.antt =====
-- Error codes and the two error types: crates/mango-protocol/src/error.rs.
use Prim.Native.String.{String}
use mango_protocol.Common.{
  Text, codes, text_eq, List, [], ◌∷◌, ◌++◌, Bool, false, ◌||◌, Option, none, some,
}
use mango_protocol.Libs.{Libs}

-- A text literal of the source. It stays shut: its code points matter only in tests.
unfoldable pub lit : String → Text
lit s = codes s

unfoldable pub reserved_codes : List Text
unfolding lit
reserved_codes =
    lit "UNAVAILABLE"
    ∷ lit "INVALID_REQUEST"
    ∷ lit "METHOD_UNSUPPORTED"
    ∷ lit "INVALID_PARAMS"
    ∷ lit "DENIED"
    ∷ lit "CANCELLED"
    ∷ lit "TIMEOUT"
    ∷ lit "FRAME_TOO_LARGE"
    ∷ lit "PROTOCOL_MISMATCH"
    ∷ lit "INTERNAL"
    ∷ []

-- `[T]::contains` on texts
unfoldable pub contains_text : List Text → Text → Bool
contains_text [] t = false
contains_text (c ∷ cs) t = text_eq c t || contains_text cs t

unfoldable pub is_reserved_error_code : Text → Bool
unfolding contains_text reserved_codes
is_reserved_error_code code = contains_text reserved_codes code

pub data CodecErrorKind : Type 0 where
  invalid_json schema too_large : CodecErrorKind
  chunk_version chunk_header chunk_count chunk_index chunk_dribble : CodecErrorKind

unfoldable pub reason : CodecErrorKind → Text
reason invalid_json = lit "invalid-json"
reason schema = lit "schema"
reason too_large = lit "too-large"
reason chunk_version = lit "chunk-version"
reason chunk_header = lit "chunk-header"
reason chunk_count = lit "chunk-count"
reason chunk_index = lit "chunk-index"
reason chunk_dribble = lit "chunk-dribble"

-- The derived `==` at `Schema` and at `TooLarge`, the two kinds the code compares with.
unfoldable pub is_schema : CodecErrorKind → Bool
is_schema schema = Bool.true
is_schema _ = false

unfoldable pub is_too_large : CodecErrorKind → Bool
is_too_large too_large = Bool.true
is_too_large _ = false

pub record CodecError : Type 0 where
  pub kind : CodecErrorKind
  pub message : Text
  pub frame_type : Option (Text)

abbrev pub codec_error : CodecErrorKind → Text → CodecError
codec_error kind message = record { kind = kind; message = message; frame_type = none }

abbrev pub with_frame_type : CodecError → Text → CodecError
with_frame_type error frame_type = record error { frame_type = some frame_type }

-- `impl Display for CodecError`
unfoldable pub codec_error_text : CodecError → Text
codec_error_text error = reason error.kind ++ (lit ": " ++ error.message)

pub record RemoteError (L : Libs) : Type 0 where
  pub code : Text
  pub message : Text
  pub details : Option (L.Map)

module _ ⦃L : Libs⦄ where
  abbrev pub remote_error : Text → Text → RemoteError L
  remote_error code message = record { code = code; message = message; details = none }

  abbrev pub with_details : RemoteError L → L.Map → RemoteError L
  with_details error details = record error { details = some details }

  abbrev pub members : Option (L.Map) → L.Map
  members none = L.empty_map
  members (some map) = map

  abbrev pub with_detail : RemoteError L → Text → L.Value → RemoteError L
  with_detail error key value = record error {
    details = some (L.insert_member key value (members error.details));
  }
