-- ===== src/Catalog.antt =====
-- The catalog document and its checks: crates/mango-protocol/src/catalog.rs.
pub mod Rules
use mango_protocol.Common.{
  ℕ, ◌+◌, Text, List, [], ◌∷◌, ◌++◌, Bool, true, false, length, in_range, if◌then◌else◌, Option,
  none, some, Result, ok, err, ◌>>◌,
}
use mango_protocol.Libs.{Libs}
use mango_protocol.Wire.Error.{lit, contains_text}
use mango_protocol.Wire.Version.{ProtocolVersion}
use mango_protocol.Validate.Grammar.{max_name_chars, is_valid_method_name}
use mango_protocol.Validate.Checks.{Checked, ValidationError}
use mango_protocol.Session.State.{format}
use mango_protocol.Transports.Ssh.{is_empty}

-- The variants of `serde_json::Value`, with what `describe_json` shows of them.
pub data Shape : Type 0 where
  null string object : Shape
  bool number : Text → Shape
  array : ℕ → Shape

-- Which variant a value is.
pub record Shapes (L : Libs) : Type 0 where
  pub shape : L.Value → Shape

pub record CatalogMethod (L : Libs) : Type 0 where
  pub name : Text
  pub description : Option Text
  pub params : L.Value
  pub result : L.Value
  pub capabilities : List Text
  pub deprecated : Bool

pub record CatalogEvent (L : Libs) : Type 0 where
  pub topic : Text
  pub description : Option Text
  pub payload : L.Value
  pub stream : Bool

pub record Catalog (L : Libs) : Type 0 where
  pub name : Text
  pub version : Text
  pub description : Option Text
  pub protocol : Option ProtocolVersion
  pub methods : List (CatalogMethod L)
  pub events : List (CatalogEvent L)
  pub capabilities : Option L.Value

module _ ⦃L : Libs⦄ where
  unfoldable pub describe_json : Shape → Text
  describe_json Shape.null = lit "null"
  describe_json (Shape.bool value) = lit "the boolean " ++ value
  describe_json (Shape.number value) = lit "the number " ++ value
  describe_json Shape.string = lit "a string"
  describe_json (Shape.array items) = lit "an array of " ++ (L.display items ++ lit " items")
  describe_json Shape.object = lit "an object"

  unfoldable pub check_name : Text → Text → Checked
  check_name field value =
      if in_range 1 max_name_chars (length value)
      then ok tt
      else err (record {
        field = field;
        received = lit "a string of " ++ (L.display (length value) ++ lit " characters");
        expected = lit "a string of 1 to " ++ (L.display max_name_chars ++ lit " characters");
      })

  unfoldable pub check_grammar : Text → Text → Checked
  check_grammar field value =
      if is_valid_method_name value
      then ok tt
      else err (record {
        field = field;
        received = L.debug value;
        expected =
            lit "at least two dot-separated lowercase segments, at most "
            ++ (L.display max_name_chars ++ lit " characters");
      })

  -- `{field}[{index}]`
  abbrev pub at_index : Text → ℕ → Text
  at_index field index = format (field ∷ lit "[" ∷ L.display index ∷ lit "]" ∷ [])

  -- The loop of `check_capabilities` behind the names that it has seen.
  unfoldable pub check_names : Text → ℕ → List Text → List Text → Checked
  check_names field index seen [] = ok tt
  check_names field index seen (name ∷ names) =
      let rest = check_names field (index + 1) (seen ++ name ∷ []) names in
      if is_empty name
      then err (record {
        field = at_index field index;
        received = lit "an empty string";
        expected = lit "a capability name of at least one character";
      })
      else if contains_text seen name
      then err (record {
        field = at_index field index;
        received = L.debug name ++ lit ", already named earlier in the list";
        expected = lit "a capability name distinct from every other in the list";
      })
      else rest

  unfoldable pub check_capabilities : Text → List Text → Checked
  unfolding check_names
  check_capabilities field names = check_names field 0 [] names

  -- `catalog.methods[{index}].{member}`
  abbrev pub member_of : Text → ℕ → Text → Text
  member_of list index member = at_index (lit "catalog." ++ list) index ++ (lit "." ++ member)

module _ ⦃L : Libs⦄ ⦃J : Shapes L⦄ where
  unfoldable pub check_document : Text → L.Value → Checked
  check_document field document =
      if L.is_object document
      then ok tt
      else err (record {
        field = field;
        received = describe_json (J.shape document);
        expected =
            lit "a JSON Schema 2020-12 document, which catalog.json requires to be an object";
      })

  unfoldable pub check_method : ℕ → CatalogMethod L → Checked
  check_method index method = do
    check_grammar (member_of (lit "methods") index (lit "name")) method.name
    check_document (member_of (lit "methods") index (lit "params")) method.params
    check_document (member_of (lit "methods") index (lit "result")) method.result
    check_capabilities (member_of (lit "methods") index (lit "capabilities")) method.capabilities

  unfoldable pub check_event : ℕ → CatalogEvent L → Checked
  check_event index event = do
    check_grammar (member_of (lit "events") index (lit "topic")) event.topic
    check_document (member_of (lit "events") index (lit "payload")) event.payload

  unfoldable pub check_optional : Option L.Value → Checked
  check_optional none = ok tt
  check_optional (some capabilities) = check_document (lit "catalog.capabilities") capabilities

-- `for (index, item) in items.iter().enumerate() { check(index, item)?; }`
unfoldable pub check_each {ℓ} : {A : Type ℓ} → (ℕ → A → Checked) → ℕ → List A → Checked
check_each check index [] = ok tt
check_each check index (a ∷ as') = check index a >> check_each check (index + 1) as'

module _ ⦃L : Libs⦄ ⦃J : Shapes L⦄ where
  unfoldable pub validate_catalog : Catalog L → Checked
  unfolding check_each
  validate_catalog catalog = do
    check_name (lit "catalog.name") catalog.name
    check_name (lit "catalog.version") catalog.version
    check_each check_method 0 catalog.methods
    check_each check_event 0 catalog.events
    check_optional catalog.capabilities
