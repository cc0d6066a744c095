-- ===== src/Examples/Contracts.antt =====
-- A contract with one method, over schemas that accept one value.
use mango_protocol.Common.{
  ℕ, ◌≡◌, ◌↔◌, refl, Text, text_eq, List, [], ◌∷◌, ◌++◌, Bool, true, false, if◌then◌else◌, Option,
  none, some, Result, ok, err, All,
}
use mango_protocol.Wire.Error.{RemoteError, contains_text}
use mango_protocol.Wire.Version.{ProtocolVersion}
use mango_protocol.Validate.Grammar.{
  rpc_discover, is_valid_method_name, is_valid_segment, split, ends_with,
}
use mango_protocol.Catalog.{
  Shape, Shapes, CatalogMethod, Catalog, validate_catalog, check_each, check_capabilities,
  check_names, check_method, check_optional, check_document, check_name, check_grammar,
  describe_json,
}
use mango_protocol.Catalog.Rules.{IsCatalog, validate_catalog_iff}
use mango_protocol.Contract.{JsonSchema, Contract, ViolationKind, compile, first_violation}
use mango_protocol.Contract.Compile.{Compiles, compile_iff}
use mango_protocol.Contract.Serve.{TypedHandler, MethodPolicy, answer, serve, default_options}
use mango_protocol.Contract.Serve.Order.{Handles, Accepts, IsServed, answer-IsServed}
use mango_protocol.Session.Handlers.{HandlerGuard}
use mango_protocol.Contract.Serve.Registered.{last_given, handler_at}
use mango_protocol.Contract.Serve.Registration.{IsClean, serve-IsClean}
use mango_protocol.Contract.Client.{
  request_with, checked_catalog, discover_with, discover_with-IsCatalog,
}
use mango_protocol.Examples.{toy_libs}
use mango_protocol.Examples.Sessions.{shared}

instance abbrev toy_shapes : Shapes toy_libs
toy_shapes = record { shape = λ v. Shape.object }

-- A schema accepts the value that it is.
abbrev toy_schema : JsonSchema toy_libs
toy_schema = record {
  Validator = Text;
  build = λ schema. ok schema;
  validate = λ validator value.
      if text_eq validator value
      then none
      else some (record { instance_path = []; kind = ViolationKind.other; text = [] });
  join = λ base property. base ++ property;
}

-- `fs.read`
abbrev method : CatalogMethod toy_libs
method = record {
  name = 102 ∷ 115 ∷ 46 ∷ 114 ∷ 101 ∷ 97 ∷ 100 ∷ [];
  description = none;
  params = 1 ∷ [];
  result = 2 ∷ [];
  capabilities = (99 ∷ []) ∷ [];
  deprecated = false;
}

abbrev catalog : Catalog toy_libs
catalog = record {
  name = 97 ∷ [];
  version = 49 ∷ [];
  description = none;
  protocol = none;
  methods = method ∷ [];
  events = [];
  capabilities = none;
}

abbrev contract : Contract toy_schema
contract = record {
  catalog = catalog;
  methods = record { definition = method; params = 1 ∷ []; result = 2 ∷ [] } ∷ [];
}

validate_catalog_iff_example :
    ((validate_catalog catalog ≡ ok tt) ↔ IsCatalog catalog)
    × ((protocol : Option ProtocolVersion)
        → (validate_catalog (record catalog { protocol = protocol }) ≡ ok tt) ↔ IsCatalog catalog)
validate_catalog_iff_example = validate_catalog_iff catalog

compile_iff_example :
    (compile toy_schema catalog ≡ ok contract) ↔ Compiles toy_schema catalog contract
compile_iff_example = compile_iff toy_schema catalog contract

abbrev handler : TypedHandler toy_libs
handler = record {
  Params = Text;
  Output = Text;
  from_value = λ v. ok v;
  to_value = λ v. ok v;
  handler = λ p. ok (2 ∷ []);
}

abbrev policy : MethodPolicy toy_schema
policy = record {
  params_validator = 1 ∷ [];
  result_validator = 2 ∷ [];
  capabilities = [];
  guard = some (λ method params capabilities. ok tt);
  validate_results = true;
}

answer-IsServed_example :
    (Handles (answer toy_schema method.name (1 ∷ []) handler policy).0
      → (first_violation toy_schema policy.params_validator (1 ∷ []) ≡ none)
        × Accepts {L = toy_libs} method.name (1 ∷ []) policy.capabilities policy.guard)
    × ((first_violation toy_schema policy.params_validator (1 ∷ []) ≡ none → ⊥)
        → (answer toy_schema method.name (1 ∷ []) handler policy).0 ≡ [])
    × ((value : Text)
        → ((answer toy_schema method.name (1 ∷ []) handler policy).1 ≡ ok value)
          ↔ IsServed toy_schema method.name (1 ∷ []) handler policy value)
answer-IsServed_example = answer-IsServed toy_schema method.name (1 ∷ []) handler policy

serve-IsClean_example :
    IsClean toy_schema contract shared
      ((method.name, 7) ∷ [])
      (serve toy_schema contract default_options ((method.name, 7) ∷ []) 8 (ok []) shared)
    × ((guards : List HandlerGuard)
        → (serve toy_schema contract default_options ((method.name, 7) ∷ []) 8 (ok []) shared).1
          ≡ ok guards
        → (name : Text)
        → handler_at
            (serve toy_schema contract default_options ((method.name, 7) ∷ []) 8 (ok []) shared).0
            name
          ≡ last_given name ((rpc_discover, 8) ∷ (method.name, 7) ∷ []) (handler_at shared name))
unfolding mango_protocol.Common.get text_eq rpc_discover
serve-IsClean_example =
    serve-IsClean toy_schema contract default_options shared ((method.name, 7) ∷ []) 8 (ok []) refl
      (refl, tt)

-- A peer that answers every request, and a reader that takes every answer for the catalog.
abbrev peer : Text → Text → Result Text (RemoteError toy_libs)
peer = λ m v. ok []

abbrev reader : Text → Result (Catalog toy_libs) Text
reader = λ v. ok catalog

discovered : discover_with [] reader peer ≡ ok catalog
unfolding discover_with request_with checked_catalog validate_catalog check_each check_capabilities
    check_names check_method check_optional check_document check_name check_grammar describe_json
    is_valid_method_name split is_valid_segment ends_with contains_text
discovered = refl

discover_with-IsCatalog_example :
    IsCatalog catalog
    × ((value : Text) × (peer rpc_discover [] ≡ ok value) × (reader value ≡ ok catalog))
discover_with-IsCatalog_example = discover_with-IsCatalog [] reader peer catalog discovered
