-- ===== src/Contract/Client.antt =====
-- Calling and listening through a contract: crates/mango-protocol/src/contract/client.rs and
-- contract/events.rs. What a request comes to and which events arrive are arguments.
use mango_protocol.Common.{
  ◌≡◌, sym, subst, Text, text_eq, List, [], ◌∷◌, Bool, not, Option, none, some, if◌then◌else◌,
  Result, ok, err, ◌>>=◌, ◌>>◌, map_err, Result-cases, inl, inr, arith,
}
use mango_protocol.Libs.{Libs}
use mango_protocol.Wire.Error.{lit, RemoteError, remote_error, with_detail}
use mango_protocol.Wire.Frame.{Frame, Event}
use mango_protocol.Validate.Grammar.{rpc_discover}
use mango_protocol.Validate.Checks.{validation_error_text}
use mango_protocol.Codec.Serde.{Serde}
use mango_protocol.Session.State.{format, Shared}
use mango_protocol.Session.Emit.{emit}
use mango_protocol.Catalog.{Shapes, Catalog, validate_catalog}
use mango_protocol.Catalog.Rules.{IsCatalog, validate_catalog_iff}
use mango_protocol.Contract.{method_error}

-- `EventOptions`
pub record EventOptions : Type 0 where
  pub stream_id : Option Text
  pub ends : Bool

pub record TypedEvent (L : Libs) (T : Type 0) : Type 0 where
  pub payload : T
  pub frame : Event L

module _ ⦃L : Libs⦄ where
  -- `request_with`, with the session's answer to the method and the value of the parameters
  unfoldable pub request_with :
      {P R : Type 0}
      → (P → Result L.Value Text)
      → (L.Value → Result R Text)
      → (Text → L.Value → Result L.Value (RemoteError L))
      → Text
      → P
      → Result R (RemoteError L)
  request_with to_value from_value session method params = do
    value ←
        map_err
          (λ error.
            method_error (lit "INTERNAL")
              (lit "Parameters of \""
                ∷ method
                ∷ lit "\" failed to serialise: "
                ∷ error
                ∷ lit "."
                ∷ [])
              method)
          (to_value params)
    result ← session method value
    map_err
        (λ error.
          method_error (lit "INTERNAL")
            (lit "Result of \""
              ∷ method
              ∷ lit "\" from the peer does not decode as the requested type: "
              ∷ error
              ∷ lit "."
              ∷ [])
            method)
        (from_value result)

  -- The refusals of an event have its topic as a detail.
  abbrev pub topic_error : List Text → Text → RemoteError L
  topic_error text topic =
      with_detail (remote_error (lit "INTERNAL") (format text)) (lit "topic") (L.text_value topic)

  unfoldable pub decode_event :
      {T : Type 0}
      → (L.Value → Result T Text)
      → Text
      → Event L
      → Result (TypedEvent L T) (RemoteError L)
  decode_event from_value topic frame = elim (from_value frame.payload) [
    | ok payload ↦ ok (record { payload = payload; frame = frame })
    | err error ↦ err (
        topic_error
          (lit "Event \""
            ∷ topic
            ∷ lit "\" payload does not decode into the expected type: "
            ∷ error
            ∷ lit "."
            ∷ [])
          topic)
  ]

  -- `TypedEventStream::recv` over the events that arrive; where they end, so does the stream.
  unfoldable pub recv_event :
      {T : Type 0}
      → (L.Value → Result T Text)
      → Text
      → List (Event L)
      → Option (Result (TypedEvent L T) (RemoteError L)) × List (Event L)
  unfolding decode_event
  recv_event from_value topic [] = (none, [])
  recv_event from_value topic (frame ∷ frames) =
      let later = recv_event from_value topic frames in
      if not (text_eq frame.topic topic)
      then later
      else (some (decode_event from_value topic frame), frames)

module _ ⦃L : Libs⦄ ⦃J : Shapes L⦄ where
  unfoldable pub checked_catalog : Catalog L → Result (Catalog L) (RemoteError L)
  checked_catalog catalog = do
    map_err
        (λ error. remote_error (lit "INTERNAL") (
          format (
            lit "The peer's catalog does not satisfy the checks Serde cannot express: "
            ∷ validation_error_text error
            ∷ lit "."
            ∷ [])))
        (validate_catalog catalog)
    ok catalog

  -- `discover_with`; the parameters are an empty object
  unfoldable pub discover_with :
      L.Value
      → (L.Value → Result (Catalog L) Text)
      → (Text → L.Value → Result L.Value (RemoteError L))
      → Result (Catalog L) (RemoteError L)
  unfolding request_with checked_catalog
  discover_with empty_object from_value session = do
    catalog ←
        request_with (λ (value : L.Value). ok value) from_value session rpc_discover empty_object
    checked_catalog catalog

  checked_rules :
      (catalog got : Catalog L)
      → checked_catalog catalog ≡ ok got
      → (got ≡ catalog) × IsCatalog catalog
  unfolding checked_catalog
  checked_rules catalog got h = elim (Result-cases (validate_catalog catalog)) [
    | inl (u, e) ↦ (ground (arith, e), (validate_catalog_iff catalog).0.0 e)
    | inr (x, e) ↦ absurd (ground (arith, e))
  ]

  -- Whatever the peer answers, a catalog that `discover_with` gives is one that the peer's answer
  -- to `rpc.discover` reads as, and it keeps every rule that `Catalog::validate` checks, none of which
  -- is about its `protocol`.
  pub discover_with-IsCatalog :
      (empty_object : L.Value) (from_value : L.Value → Result (Catalog L) Text)
      (session : Text → L.Value → Result L.Value (RemoteError L)) (catalog : Catalog L)
      → discover_with empty_object from_value session ≡ ok catalog
      → IsCatalog catalog
        × ((value : L.Value) × (session rpc_discover empty_object ≡ ok value)
            × (from_value value ≡ ok catalog))
  unfolding discover_with request_with
  discover_with-IsCatalog empty_object from_value session catalog h =
      elim (Result-cases (session rpc_discover empty_object)) [
        | inr (x, e) ↦ absurd (ground (arith, e))
        | inl (value, e) ↦ elim (Result-cases (from_value value)) [
          | inr (x, f) ↦ absurd (ground (arith, e, f))
          | inl (got, f) ↦
              let c = checked_rules got catalog (ground (arith, e, f)) in
              (subst IsCatalog (sym c.0) c.1, (value, e, ground (arith, f, c.0)))
        ]
      ]

module _ ⦃L : Libs⦄ ⦃S : Serde L⦄ where
  -- `ContractEvents::emit`, with whether the writer is gone
  unfoldable pub emit_typed :
      {T : Type 0}
      → (T → Result L.Value Text)
      → Shared L
      → Text
      → T
      → EventOptions
      → Bool
      → Shared L × (Option (Frame L) × Result Bool (RemoteError L))
  emit_typed to_value shared topic payload options gone = elim (to_value payload) [
    | err error ↦ (
      shared,
      (
        none,
        err (
            topic_error
              (lit "Event \""
                ∷ topic
                ∷ lit "\" payload failed to serialise: "
                ∷ error
                ∷ lit "."
                ∷ [])
              topic),
      ),
    )
    | ok value ↦
        emit shared
          (record {
            topic = topic;
            payload = value;
            stream_id = options.stream_id;
            ends = options.ends;
          })
          gone
  ]
