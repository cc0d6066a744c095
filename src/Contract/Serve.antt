-- ===== src/Contract/Serve.antt =====
-- Serving a contract: crates/mango-protocol/src/contract/serve.rs.
pub mod Order
pub mod Registered
pub mod Registration
use mango_protocol.Common.{
  ℕ, Text, List, [], ◌∷◌, ◌++◌, Bool, true, false, not, if◌then◌else◌, Option, none, some, Result,
  ok, err,
}
use mango_protocol.Libs.{Libs}
use mango_protocol.Wire.Error.{lit, RemoteError}
use mango_protocol.Validate.Grammar.{rpc_discover}
use mango_protocol.Validate.Checks.{ValidationError}
use mango_protocol.Session.State.{format, Shared}
use mango_protocol.Session.Handlers.{HandlerGuard, persist, handle, drop_guard}
use mango_protocol.Contract.{
  JsonSchema, CompiledMethod, Contract, find_method, check_params, check_result, decode,
  method_error,
}

-- `TypedHandler`: the types of its parameters and its result, with their reading and writing by
-- serde_json, and what the handler's future comes to.
pub record TypedHandler (L : Libs) : Type 1 where
  pub Params : Type 0
  pub Output : Type 0
  pub from_value : L.Value → Result Params Text
  pub to_value : Output → Result L.Value Text
  pub handler : Params → Result Output (RemoteError L)

-- `Guard::check`
abbrev pub Guard : Libs → Type 0
Guard L = Text → L.Value → List Text → Result (Unit {0}) (RemoteError L)

-- The code outside the crate that an answer runs, in order.
pub data Call (L : Libs) : Type 0 where
  guarded : List Text → Call L
  handled : Call L

pub record MethodPolicy {L : Libs} (V : JsonSchema L) : Type 0 where
  pub params_validator : V.Validator
  pub result_validator : V.Validator
  pub capabilities : List Text
  pub guard : Option (Guard L)
  pub validate_results : Bool

pub record ServeOptions (L : Libs) : Type 0 where
  pub guard : Option (Guard L)
  pub validate_results : Bool
  pub discover : Bool

abbrev pub default_options : {L : Libs} → ServeOptions L
default_options = record { guard = none; validate_results = false; discover = true }

module _ ⦃L : Libs⦄ where
  abbrev pub Answer : Type 0
  Answer = List (Call L) × Result L.Value (RemoteError L)

  -- Calls before those of the rest.
  abbrev pub after : List (Call L) → Answer → Answer
  after calls (more, result) = (calls ++ more, result)

  unfoldable pub serialise :
      {R : Type 0}
      → (R → Result L.Value Text)
      → Text
      → Result R (RemoteError L)
      → Result L.Value (RemoteError L)
  serialise to_value method (err error) = err error
  serialise to_value method (ok result) = elim (to_value result) [
    | ok value ↦ ok value
    | err error ↦ err (
        method_error (lit "INTERNAL")
          (lit "Result of \"" ∷ method ∷ lit "\" failed to serialise: " ∷ error ∷ lit "." ∷ [])
          method)
  ]

  -- `TypedHandler::call`
  unfoldable pub call_decoded :
      (h : TypedHandler L) → Text → Result h.Params (RemoteError L) → Answer
  unfolding serialise
  call_decoded h method (err error) = ([], err error)
  call_decoded h method (ok params) = (handled ∷ [], serialise h.to_value method (h.handler params))

  unfoldable pub call : TypedHandler L → Text → L.Value → Answer
  unfolding call_decoded decode
  call h method params = call_decoded h method (decode h.from_value method params)

  -- The answer of `rpc.discover`.
  unfoldable pub discover : L.Value → L.Value → Result L.Value (RemoteError L)
  discover catalog params =
      if not (L.is_object params)
      then err (
          method_error (lit "INVALID_PARAMS")
            (lit "Parameters of \"" ∷ rpc_discover ∷ lit "\" must be an object." ∷ []) rpc_discover)
      else ok catalog

  -- Dropping the guards, the first one first.
  unfoldable pub drop_all : List HandlerGuard → Shared L → Shared L
  drop_all [] s = s
  drop_all (g ∷ guards) s = drop_all guards (drop_guard g s)

  module _ (V : JsonSchema L) where
    -- `answer` behind the handler
    unfoldable pub answer_result : Text → MethodPolicy V → Answer → Answer
    answer_result method policy (calls, err error) = (calls, err error)
    answer_result method policy (calls, ok result) =
        if policy.validate_results
        then elim (check_result V method policy.result_validator result) [
          | err error ↦ (calls, err error)
          | ok _ ↦ (calls, ok result)
        ]
        else (calls, ok result)

    -- `answer` behind the guard, with what it said where there is one
    unfoldable pub answer_guarded :
        Text
        → L.Value
        → TypedHandler L
        → MethodPolicy V
        → Result (Unit {0}) (RemoteError L)
        → Answer
    unfolding call answer_result
    answer_guarded method params h policy (err error) = ([], err error)
    answer_guarded method params h policy (ok _) =
        answer_result method policy (call h method params)

    -- `answer` behind the check of the parameters
    unfoldable pub answer_checked :
        Text → L.Value → TypedHandler L → MethodPolicy V → Option (Guard L) → Answer
    unfolding answer_guarded
    answer_checked method params h policy none = answer_guarded method params h policy (ok tt)
    answer_checked method params h policy (some guard) =
        after (guarded policy.capabilities ∷ [])
          (answer_guarded method params h policy (guard method params policy.capabilities))

    unfoldable pub answer_when :
        Text
        → L.Value
        → TypedHandler L
        → MethodPolicy V
        → Result (Unit {0}) (RemoteError L)
        → Answer
    unfolding answer_checked
    answer_when method params h policy (err error) = ([], err error)
    answer_when method params h policy (ok _) = answer_checked method params h policy policy.guard

    unfoldable pub answer : Text → L.Value → TypedHandler L → MethodPolicy V → Answer
    unfolding answer_when
    answer method params h policy =
        answer_when method params h policy (check_params V method policy.params_validator params)

    abbrev pub policy_of : CompiledMethod V → ServeOptions L → MethodPolicy V
    policy_of compiled options = record {
      params_validator = compiled.params;
      result_validator = compiled.result;
      capabilities = compiled.definition.capabilities;
      guard = options.guard;
      validate_results = options.validate_results;
    }

    -- The loop of `serve` over the handlers, named by numbers. A refusal drops the guards.
    unfoldable pub serve_each :
        Contract V
        → List HandlerGuard
        → List (Text × ℕ)
        → Shared L
        → Shared L × Result (List HandlerGuard) ValidationError
    unfolding drop_all
    serve_each contract guards [] s = (s, ok guards)
    serve_each contract guards ((method, h) ∷ handlers) s =
        let rest =
          serve_each contract (guards ++ (handle s method h).1 ∷ []) handlers
            (handle s method h).0 in
        elim (find_method V method contract.methods) [
          | none ↦ (
            drop_all guards s,
            err (record {
              field = lit "handlers";
              received = method;
              expected =
                  format (
                    lit "a method declared by contract \"" ∷ contract.catalog.name ∷ lit "\"" ∷ []);
            }),
          )
          | some compiled ↦ rest
        ]

    -- The handler that answers `rpc.discover`, where the catalog serialises.
    unfoldable pub serve_discover :
        Contract V
        → List (Text × ℕ)
        → ℕ
        → Result L.Value Text
        → Shared L
        → Shared L × Result (List HandlerGuard) ValidationError
    unfolding serve_each
    serve_discover contract handlers h (err error) s = (
      s,
      err (record {
        field = lit "catalog";
        received = error;
        expected = lit "a catalog that serialises to JSON";
      }),
    )
    serve_discover contract handlers h (ok catalog) s =
        serve_each contract ((handle s rpc_discover h).1 ∷ []) handlers (handle s rpc_discover h).0

    unfoldable pub serve :
        Contract V
        → ServeOptions L
        → List (Text × ℕ)
        → ℕ
        → Result L.Value Text
        → Shared L
        → Shared L × Result (List HandlerGuard) ValidationError
    unfolding serve_each serve_discover
    serve contract options handlers h catalog s =
        if options.discover
        then serve_discover contract handlers h catalog s
        else serve_each contract [] handlers s

-- `ServeGuard::persist`
unfoldable pub persist_all : List HandlerGuard → List HandlerGuard
persist_all [] = []
persist_all (g ∷ guards) = persist g ∷ persist_all guards
