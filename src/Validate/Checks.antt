-- ===== src/Validate/Checks.antt =====
-- The frame checks of crates/mango-protocol/src/validate.rs, in the order the source makes them.
use mango_protocol.Common.{
  ℕ, Text, ◌++◌, not, ltb, in_range, if◌then◌else◌, length, take, leb, Option, none, some, Result,
  ok, err, ◌>>◌,
}
use mango_protocol.Libs.{Libs}
use mango_protocol.Wire.Error.{lit}
use mango_protocol.Wire.Close.{min_close_code, max_close_code}
use mango_protocol.Wire.Frame.{Frame, Hello, Limits, Request, Response, ErrorPayload, Event, Close}
use mango_protocol.Validate.Grammar.{
  max_id_chars, max_name_chars, method_name_pattern, max_code_chars, max_reason_chars,
  min_announced_frame_bytes, max_announced_frame_bytes, min_announced_in_flight,
  max_announced_in_flight, usize_max, is_valid_method_name, is_valid_role, is_valid_error_code,
}

pub record ValidationError : Type 0 where
  pub field : Text
  pub received : Text
  pub expected : Text

-- `Result<(), ValidationError>`
abbrev pub Checked : Type 0
Checked = Result (Unit {0}) ValidationError

module _ ⦃L : Libs⦄ where
  -- `impl Display for ValidationError`
  unfoldable pub validation_error_text : ValidationError → Text
  validation_error_text e =
      e.field ++ (lit ": received " ++ (e.received ++ (lit ", expected " ++ e.expected)))

  unfoldable pub describe : Text → Text
  describe value =
      if leb (length value) 48
      then L.debug value
      else L.debug (take 48 value)
        ++ (lit "… (" ++ (L.display (length value) ++ lit " characters)"))

  unfoldable pub check_length : Text → Text → ℕ → ℕ → Checked
  check_length field value lo hi =
      if in_range lo hi (length value)
      then ok tt
      else err (record {
        field = field;
        received = describe value;
        expected =
            lit "a string of "
            ++ (L.display lo ++ (lit " to " ++ (L.display hi ++ lit " characters")));
      })

  unfoldable pub check_id : Text → Text → Checked
  unfolding check_length
  check_id field value = check_length field value 1 max_id_chars

  unfoldable pub check_method_name : Text → Text → Checked
  check_method_name field value =
      if is_valid_method_name value
      then ok tt
      else err (record {
        field = field;
        received = describe value;
        expected =
            lit "at least two dot-separated lowercase segments matching "
            ++ (method_name_pattern
                ++ (lit ", at most " ++ (L.display max_name_chars ++ lit " characters")));
      })

  unfoldable pub check_range : Text → Option ℕ → ℕ → ℕ → Checked
  check_range field none lo hi = ok tt
  check_range field (some value) lo hi =
      if in_range lo hi value
      then ok tt
      else err (record {
        field = field;
        received = L.display value;
        expected = lit "an integer from " ++ (L.display lo ++ (lit " to " ++ L.display hi));
      })

  unfoldable pub validate_limits : Limits → Checked
  unfolding check_range
  validate_limits limits = do
    check_range (lit "hello.limits.maxFrameBytes") limits.max_frame_bytes min_announced_frame_bytes
        max_announced_frame_bytes
    check_range (lit "hello.limits.maxInFlight") limits.max_in_flight min_announced_in_flight
        max_announced_in_flight

  unfoldable pub check_limits : Option Limits → Checked
  unfolding validate_limits
  check_limits none = ok tt
  check_limits (some limits) = validate_limits limits

  -- `hello.protocol.major < 1`
  unfoldable pub check_major : ℕ → Checked
  check_major major =
      if ltb major 1
      then err (record {
        field = lit "hello.protocol.major";
        received = L.display major;
        expected = lit "an integer of at least 1";
      })
      else ok tt

  unfoldable pub check_role : Text → Checked
  check_role role =
      if not (is_valid_role role)
      then err (record {
        field = lit "hello.peer.role";
        received = describe role;
        expected =
            lit "a lowercase label matching ^[a-z][a-z0-9-]*$, at most "
            ++ (L.display max_code_chars ++ lit " characters");
      })
      else ok tt

  unfoldable pub validate_hello : Hello L → Checked
  unfolding check_major check_length check_role check_limits
  validate_hello hello = do
    check_major hello.protocol.major
    check_length (lit "hello.peer.name") hello.peer.name 1 max_name_chars
    check_length (lit "hello.peer.version") hello.peer.version 1 max_name_chars
    check_role hello.peer.role
    check_limits hello.limits

  unfoldable pub check_code : Text → Text → Checked
  check_code field code =
      if not (is_valid_error_code code)
      then err (record {
        field = field ++ lit ".code";
        received = describe code;
        expected =
            lit "a code matching ^[A-Z][A-Z0-9_]*$, 1 to "
            ++ (L.display max_code_chars ++ lit " characters");
      })
      else ok tt

  unfoldable pub validate_error_payload : Text → ErrorPayload L → Checked
  unfolding check_code check_length
  validate_error_payload field payload = do
    check_code field payload.code
    check_length (field ++ lit ".message") payload.message 1 usize_max

  unfoldable pub validate_request : Request L → Checked
  unfolding check_id check_method_name
  validate_request request = do
    check_id (lit "req.id") request.id
    check_method_name (lit "req.method") request.method

  unfoldable pub validate_response : Response L → Checked
  unfolding check_id
  validate_response response = check_id (lit "res.id") response.id

  unfoldable pub check_stream_id : Option Text → Checked
  unfolding check_id
  check_stream_id none = ok tt
  check_stream_id (some stream_id) = check_id (lit "evt.streamId") stream_id

  unfoldable pub validate_event : Event L → Checked
  unfolding check_method_name check_stream_id
  validate_event event = do
    check_method_name (lit "evt.topic") event.topic
    check_stream_id event.stream_id

  unfoldable pub check_reason : Option Text → Checked
  unfolding check_length
  check_reason none = ok tt
  check_reason (some reason) = check_length (lit "close.reason") reason 0 max_reason_chars

  unfoldable pub validate_close : Close → Checked
  unfolding check_reason
  validate_close close =
      if not (in_range min_close_code max_close_code close.code)
      then err (record {
        field = lit "close.code";
        received = L.display close.code;
        expected =
            lit "an integer from "
            ++ (L.display min_close_code ++ (lit " to " ++ L.display max_close_code));
      })
      else check_reason close.reason

  unfoldable pub validate : Frame L → Checked
  unfolding validate_hello validate_request validate_response validate_error_payload validate_event
      validate_close
  validate (Frame.hello hello) = validate_hello hello
  validate (Frame.req request) = validate_request request
  validate (Frame.res response) = validate_response response
  validate (Frame.err error) = do
    check_id (lit "err.id") error.id
    validate_error_payload (lit "err.error") error.error
  validate (Frame.evt event) = validate_event event
  validate (Frame.cancel cancel) = check_id (lit "cancel.id") cancel.id
  validate Frame.ping = ok tt
  validate Frame.pong = ok tt
  validate (Frame.close close) = validate_close close
