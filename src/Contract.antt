-- ===== src/Contract.antt =====
-- A compiled contract: crates/mango-protocol/src/contract.rs and contract/params.rs.
pub mod Compile
pub mod Serve
pub mod Client
use mango_protocol.Common.{
  ℕ, ◌+◌, Text, text_eq, List, [], ◌∷◌, ◌++◌, Bool, true, false, not, if◌then◌else◌, Option, none,
  some, Result, ok, err, ◌>>=◌, ◌>>◌, map_err,
}
use mango_protocol.Libs.{Libs}
use mango_protocol.Wire.Error.{lit, RemoteError, remote_error, with_detail}
use mango_protocol.Wire.Version.{ProtocolVersion}
use mango_protocol.Validate.Grammar.{is_reserved_method_name}
use mango_protocol.Validate.Checks.{Checked, ValidationError}
use mango_protocol.Session.State.{format}
use mango_protocol.Catalog.{
  Shapes, CatalogMethod, CatalogEvent, Catalog, member_of, check_each, validate_catalog,
}

-- `ValidationErrorKind`, as far as the crate tells its variants apart; the property names are those
-- that `as_str` and `first` give.
pub data ViolationKind : Type 0 where
  required additional_properties : Option Text → ViolationKind
  other : ViolationKind

-- `jsonschema::ValidationError`: where it is, what it is, and its text.
pub record Violation : Type 0 where
  pub instance_path : Text
  pub kind : ViolationKind
  pub text : Text

-- The jsonschema library: building a validator, checking a value, and joining a pointer.
pub record JsonSchema (L : Libs) : Type 1 where
  pub Validator : Type 0
  pub build : L.Value → Result Validator Text
  pub validate : Validator → L.Value → Option Violation
  pub join : Text → Text → Text

unfoldable pub unwrap_or_default : Option Text → Text
unwrap_or_default none = []
unwrap_or_default (some t) = t

unfoldable pub or_root : Text → Text
or_root [] = lit "/"
or_root (c ∷ s) = c ∷ s

module _ {L : Libs} (V : JsonSchema L) where
  pub record CompiledMethod : Type 0 where
    pub definition : CatalogMethod L
    pub params : V.Validator
    pub result : V.Validator

  pub record Contract : Type 0 where
    pub catalog : Catalog L
    pub methods : List CompiledMethod

  -- `params::compile`
  unfoldable pub compile_schema : Text → L.Value → Result V.Validator ValidationError
  compile_schema field schema =
      map_err
        (λ error. record {
          field = field;
          received = error;
          expected = lit "a valid JSON Schema 2020-12 document";
        })
        (V.build schema)

  unfoldable pub pointer_of : Text → ViolationKind → Text
  unfolding unwrap_or_default
  pointer_of base (required property) = V.join base (unwrap_or_default property)
  pointer_of base (additional_properties unexpected) = V.join base (unwrap_or_default unexpected)
  pointer_of base other = base

  -- `params::first_violation`
  unfoldable pub first_violation : V.Validator → L.Value → Option (Text × Text)
  unfolding pointer_of or_root
  first_violation validator value = elim (V.validate validator value) [
    | none ↦ none
    | some error ↦ some (or_root (pointer_of error.instance_path error.kind), error.text)
  ]

  -- `Contract::method`
  unfoldable pub find_method : Text → List CompiledMethod → Option CompiledMethod
  find_method name [] = none
  find_method name (m ∷ methods) =
      if text_eq m.definition.name name then some m else find_method name methods

module _ ⦃L : Libs⦄ where
  abbrev pub builder : Text → Text → Catalog L
  builder name version = record {
    name = name;
    version = version;
    description = none;
    protocol = none;
    methods = [];
    events = [];
    capabilities = none;
  }

  abbrev pub with_description : Catalog L → Text → Catalog L
  with_description catalog description = record catalog { description = some description }

  abbrev pub with_protocol : Catalog L → ProtocolVersion → Catalog L
  with_protocol catalog protocol = record catalog { protocol = some protocol }

  abbrev pub with_capabilities : Catalog L → L.Value → Catalog L
  with_capabilities catalog capabilities = record catalog { capabilities = some capabilities }

  abbrev pub with_method : Catalog L → CatalogMethod L → Catalog L
  with_method catalog method = record catalog { methods = catalog.methods ++ method ∷ [] }

  abbrev pub with_event : Catalog L → CatalogEvent L → Catalog L
  with_event catalog event = record catalog { events = catalog.events ++ event ∷ [] }

  unfoldable pub assert_not_reserved : Text → Text → Checked
  assert_not_reserved field name =
      if not (is_reserved_method_name name)
      then ok tt
      else err (record {
        field = field;
        received = L.debug name;
        expected = lit "a name outside the reserved rpc. namespace";
      })

  unfoldable pub unsupported : Text → Text → RemoteError L
  unsupported contract method =
      with_detail
        (with_detail
          (remote_error (lit "METHOD_UNSUPPORTED") (
            format (
              lit "Method \""
              ∷ method
              ∷ lit "\" is not part of contract \""
              ∷ contract
              ∷ lit "\"."
              ∷ [])))
          (lit "method") (L.text_value method))
        (lit "contract") (L.text_value contract)

  -- `with_detail("method", method)` on an error with a text
  abbrev pub method_error : Text → List Text → Text → RemoteError L
  method_error code text method =
      with_detail (remote_error code (format text)) (lit "method") (L.text_value method)

  -- `decode`, with the reader of the handler's type
  unfoldable pub decode :
      {P : Type 0} → (L.Value → Result P Text) → Text → L.Value → Result P (RemoteError L)
  decode from_value method value =
      map_err
        (λ error.
          method_error (lit "INTERNAL")
            (lit "Parameters of \""
              ∷ method
              ∷ lit "\" passed their schema but failed to decode into the handler's Rust type: "
              ∷ error
              ∷ lit "."
              ∷ [])
            method)
        (from_value value)

  module _ (V : JsonSchema L) where
    -- `check_params`, from the first violation
    unfoldable pub params_refusal : Text → Option (Text × Text) → Result (Unit {0}) (RemoteError L)
    params_refusal method none = ok tt
    params_refusal method (some (path, reason)) = err (
        with_detail
          (with_detail
            (method_error (lit "INVALID_PARAMS")
              (lit "Parameters of \""
                ∷ method
                ∷ lit "\" do not match the contract at "
                ∷ path
                ∷ lit ": "
                ∷ reason
                ∷ lit "."
                ∷ [])
              method)
            (lit "path") (L.text_value path))
          (lit "reason") (L.text_value reason))

    unfoldable pub check_params : Text → V.Validator → L.Value → Result (Unit {0}) (RemoteError L)
    unfolding params_refusal
    check_params method validator params =
        params_refusal method (first_violation V validator params)

    -- `check_result`, from the first violation
    unfoldable pub result_refusal : Text → Option (Text × Text) → Result (Unit {0}) (RemoteError L)
    result_refusal method none = ok tt
    result_refusal method (some (path, reason)) = err (
        with_detail
          (with_detail
            (method_error (lit "INTERNAL")
              (lit "Result of \""
                ∷ method
                ∷ lit "\" does not match the contract at "
                ∷ path
                ∷ lit ": "
                ∷ reason
                ∷ lit "."
                ∷ [])
              method)
            (lit "path") (L.text_value path))
          (lit "reason") (L.text_value reason))

    unfoldable pub check_result : Text → V.Validator → L.Value → Result (Unit {0}) (RemoteError L)
    unfolding result_refusal
    check_result method validator result =
        result_refusal method (first_violation V validator result)

    unfoldable pub parse_with :
        {P : Type 0}
        → (L.Value → Result P Text)
        → Text
        → Text
        → L.Value
        → Option (CompiledMethod V)
        → Result P (RemoteError L)
    unfolding decode
    parse_with from_value contract method params none = err (unsupported contract method)
    parse_with from_value contract method params (some compiled) = do
      check_params method compiled.params params
      decode from_value method params

    unfoldable pub parse_params :
        {P : Type 0}
        → (L.Value → Result P Text)
        → Contract V
        → Text
        → L.Value
        → Result P (RemoteError L)
    unfolding parse_with
    parse_params from_value contract method params =
        parse_with from_value contract.catalog.name method params
          (find_method V method contract.methods)

module _ ⦃L : Libs⦄ ⦃J : Shapes L⦄ (V : JsonSchema L) where
  unfoldable pub compile_method : ℕ → CatalogMethod L → Result (CompiledMethod V) ValidationError
  unfolding compile_schema
  compile_method index method = do
    params ← compile_schema V (member_of (lit "methods") index (lit "params")) method.params
    result ← compile_schema V (member_of (lit "methods") index (lit "result")) method.result
    ok (record { definition = method; params = params; result = result })

  -- `map(..).collect::<Result<Vec<_>, _>>()`
  unfoldable pub compile_methods :
      ℕ → List (CatalogMethod L) → Result (List (CompiledMethod V)) ValidationError
  compile_methods index [] = ok []
  compile_methods index (method ∷ methods) =
      let rest = compile_methods (index + 1) methods in
      compile_method index method >>= λ m. rest >>= λ ms. ok (m ∷ ms)

  -- A schema that is compiled for its validity alone.
  unfoldable pub check_schema : Text → L.Value → Checked
  unfolding compile_schema
  check_schema field schema = do validator ← compile_schema V field schema; ok tt

  unfoldable pub check_optional_schema : Option L.Value → Checked
  check_optional_schema none = ok tt
  check_optional_schema (some capabilities) = check_schema (lit "catalog.capabilities") capabilities

  -- The checks of `compile` behind the methods.
  unfoldable pub finish_compile :
      Catalog L
      → Result (List (CompiledMethod V)) ValidationError
      → Result (Contract V) ValidationError
  finish_compile catalog (err error) = err error
  finish_compile catalog (ok methods) = do
    check_each
        (λ index event. check_schema (member_of (lit "events") index (lit "payload")) event.payload)
        0 catalog.events
    check_optional_schema catalog.capabilities
    ok (record { catalog = catalog; methods = methods })

  unfoldable pub compile : Catalog L → Result (Contract V) ValidationError
  unfolding check_each finish_compile
  compile catalog = do
    validate_catalog catalog
    check_each
        (λ index method.
          assert_not_reserved (member_of (lit "methods") index (lit "name")) method.name)
        0 catalog.methods
    check_each
        (λ index event.
          assert_not_reserved (member_of (lit "events") index (lit "topic")) event.topic)
        0 catalog.events
    finish_compile catalog (compile_methods 0 catalog.methods)
