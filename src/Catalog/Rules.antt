-- ===== src/Catalog/Rules.antt =====
-- What `Catalog::validate` accepts: the rules of the catalog document, stated without its tests.
use mango_protocol.Common.{
  ℕ, ◌+◌, ◌≡◌, refl, ◌≢◌, ◌↔◌, inl, inr, Text, text_eq, text_eq_iff, List, [], ◌∷◌, ◌++◌, true,
  false, Option, none, some, ok, Bool-cases, All, arith,
}
use mango_protocol.Libs.{Libs}
use mango_protocol.Wire.Version.{ProtocolVersion}
use mango_protocol.Wire.Error.{contains_text}
use mango_protocol.Validate.Checks.{Checked}
use mango_protocol.Validate.Names.{is_valid_method_name_iff}
use mango_protocol.Validate.Schema.{Sized, Name, IfPresent, seq_iff}
use mango_protocol.Catalog.{
  Shapes, CatalogMethod, CatalogEvent, Catalog, check_name, check_grammar, check_names,
  check_capabilities, check_document, check_method, check_event, check_optional, check_each,
  validate_catalog,
}

-- No name is empty, and none comes twice.
abbrev pub IsDistinct : List Text → Type 0
IsDistinct [] = Unit {0}
IsDistinct (name ∷ names) = (name ≢ []) × All (λ other. name ≢ other) names × IsDistinct names

-- A name that is none of those seen.
abbrev IsNew : List Text → Text → Type 0
IsNew seen name = All (λ other. other ≢ name) seen

pub record IsMethod {L : Libs} (m : CatalogMethod L) : Type 0 where
  pub name : Name m.name
  pub params : L.is_object m.params ≡ true
  pub result : L.is_object m.result ≡ true
  pub capabilities : IsDistinct m.capabilities

pub record IsEvent {L : Libs} (e : CatalogEvent L) : Type 0 where
  pub topic : Name e.topic
  pub payload : L.is_object e.payload ≡ true

pub record IsCatalog {L : Libs} (c : Catalog L) : Type 0 where
  pub name : Sized 1 128 c.name
  pub version : Sized 1 128 c.version
  pub methods : All IsMethod c.methods
  pub events : All IsEvent c.events
  pub capabilities : IfPresent (λ v. L.is_object v ≡ true) c.capabilities

contains_text_iff :
    (seen : List Text) (name : Text) → (contains_text seen name ≡ false) ↔ IsNew seen name
unfolding contains_text
contains_text_iff [] name = (λ h. tt, λ h. refl)
contains_text_iff (s ∷ seen) name =
    let rest = contains_text_iff seen name in
    let test = text_eq_iff s name in
    (
      λ h. (λ e. ground (arith, test.1 e), rest.0 (ground arith)),
      λ h. elim (Bool-cases (text_eq s name)) [
        | inl same ↦ absurd (h.0 (test.0 same))
        | inr other ↦ ground (arith, other, rest.1 h.1)
      ],
    )

IsNew-append :
    (seen : List Text) (name other : Text)
    → IsNew (seen ++ name ∷ []) other ↔ (IsNew seen other × (name ≢ other))
IsNew-append [] name other = (λ h. (tt, h.0), λ h. (h.1, tt))
IsNew-append (s ∷ seen) name other =
    let rest = IsNew-append seen name other in
    (λ h. let r = rest.0 h.1 in ((h.0, r.0), r.1), λ h. (h.0.0, rest.1 (h.0.1, h.1)))

All-IsNew-append :
    (seen : List Text) (name : Text) (names : List Text)
    → All (IsNew (seen ++ name ∷ [])) names
      ↔ (All (IsNew seen) names × All (λ other. name ≢ other) names)
All-IsNew-append seen name [] = (λ h. (tt, tt), λ h. tt)
All-IsNew-append seen name (n ∷ names) =
    let first = IsNew-append seen name n in
    let rest = All-IsNew-append seen name names in
    (
      λ h. let f = first.0 h.0 in let r = rest.0 h.1 in ((f.0, r.0), (f.1, r.1)),
      λ h. (first.1 (h.0.0, h.1.0), rest.1 (h.0.1, h.1.1)),
    )

All-IsNew-nil : (names : List Text) → All (IsNew []) names
All-IsNew-nil [] = tt
All-IsNew-nil (n ∷ names) = (tt, All-IsNew-nil names)

module _ ⦃L : Libs⦄ where
  names_iff :
      (field : Text) (index : ℕ) (seen names : List Text)
      → (check_names field index seen names ≡ ok tt) ↔ (IsDistinct names × All (IsNew seen) names)
  unfolding check_names
  names_iff field index seen [] = (λ h. (tt, tt), λ h. refl)
  names_iff field index seen ([] ∷ names) = (λ h. cc, λ h. absurd (h.0.0 refl))
  names_iff field index seen ((c ∷ s) ∷ names) =
      let name : Text = c ∷ s in
      let test = contains_text_iff seen (c ∷ s) in
      let rest = names_iff field (index + 1) (seen ++ (c ∷ s) ∷ []) names in
      let both = All-IsNew-append seen (c ∷ s) names in
      elim (Bool-cases (contains_text seen (c ∷ s))) [
        | inl old ↦
            (λ h. absurd (ground (arith, old)), λ h. absurd (ground (arith, old, test.1 h.1.0)))
        | inr new ↦ (
          λ h.
              let r = rest.0 (ground (arith, new)) in
              let b = both.0 r.1 in ((λ e. cc, b.1, r.0), (test.0 new, b.0)),
          λ h. ground (arith, new, rest.1 (h.0.2, both.1 (h.1.1, h.0.1))),
        )
      ]

  capabilities_iff :
      (field : Text) (names : List Text)
      → (check_capabilities field names ≡ ok tt) ↔ IsDistinct names
  unfolding check_capabilities
  capabilities_iff field names =
      let all_names = names_iff field 0 [] names in
      (λ h. (all_names.0 h).0, λ h. all_names.1 (h, All-IsNew-nil names))

  grammar_iff : (field value : Text) → (check_grammar field value ≡ ok tt) ↔ Name value
  unfolding check_grammar
  grammar_iff field value =
      let test = is_valid_method_name_iff value in
      (λ h. test.0 (ground arith), λ h. ground (arith, test.1 h))

  name_iff : (field value : Text) → (check_name field value ≡ ok tt) ↔ Sized 1 128 value
  unfolding check_name
  name_iff field value = (λ h. ground arith, λ h. ground arith)

pub check_each_iff {ℓ} :
    {A : Type ℓ} (check : ℕ → A → Checked) (P : A → Type 0)
    → ((index : ℕ) (a : A) → (check index a ≡ ok tt) ↔ P a)
    → (index : ℕ) (items : List A) → (check_each check index items ≡ ok tt) ↔ All P items
unfolding check_each
check_each_iff check P each index [] = (λ h. tt, λ h. refl)
check_each_iff check P each index (a ∷ items) =
    seq_iff (check index a) (check_each check (index + 1) items) (each index a)
      (check_each_iff check P each (index + 1) items)

module _ ⦃L : Libs⦄ ⦃J : Shapes L⦄ where
  document_iff :
      (field : Text) (document : L.Value)
      → (check_document field document ≡ ok tt) ↔ (L.is_object document ≡ true)
  unfolding check_document
  document_iff field document = (λ h. ground arith, λ h. ground arith)

  IsMethod-iff : (index : ℕ) (m : CatalogMethod L) → (check_method index m ≡ ok tt) ↔ IsMethod m
  unfolding check_method
  IsMethod-iff index m =
      let both = seq_iff _ _ (grammar_iff _ m.name) (
        seq_iff _ _ (document_iff _ m.params)
          (seq_iff _ _ (document_iff _ m.result) (capabilities_iff _ m.capabilities))) in
      (
        λ h.
            let (n, (p, (r, c))) = both.0 h in
            record { name = n; params = p; result = r; capabilities = c },
        λ v. both.1 (v.name, (v.params, (v.result, v.capabilities))),
      )

  IsEvent-iff : (index : ℕ) (e : CatalogEvent L) → (check_event index e ≡ ok tt) ↔ IsEvent e
  unfolding check_event
  IsEvent-iff index e =
      let both = seq_iff _ _ (grammar_iff _ e.topic) (document_iff _ e.payload) in
      (
        λ h. let (t, p) = both.0 h in record { topic = t; payload = p },
        λ v. both.1 (v.topic, v.payload),
      )

  optional_iff :
      (capabilities : Option L.Value)
      → (check_optional capabilities ≡ ok tt) ↔ IfPresent (λ v. L.is_object v ≡ true) capabilities
  unfolding check_optional
  optional_iff none = (λ h. tt, λ h. refl)
  optional_iff (some v) = document_iff _ v

  rules_iff : (catalog : Catalog L) → (validate_catalog catalog ≡ ok tt) ↔ IsCatalog catalog
  unfolding validate_catalog
  rules_iff catalog =
      let both = seq_iff _ _ (name_iff _ catalog.name) (
        seq_iff _ _ (name_iff _ catalog.version) (
          seq_iff _ _ (check_each_iff check_method IsMethod IsMethod-iff 0 catalog.methods) (
            seq_iff _ _ (check_each_iff check_event IsEvent IsEvent-iff 0 catalog.events)
              (optional_iff catalog.capabilities)))) in
      (
        λ h.
            let (n, (v, (m, (e, c)))) = both.0 h in
            record { name = n; version = v; methods = m; events = e; capabilities = c },
        λ v. both.1 (v.name, (v.version, (v.methods, (v.events, v.capabilities)))),
      )

  -- `Catalog::validate` accepts exactly the catalogs whose name and version have 1 to 128
  -- characters, whose method names and event topics are of the documented pattern, whose schema
  -- documents (of parameters, results, payloads and, where given, capabilities) are objects, and
  -- in whose capability lists no name is empty and none comes twice. Whatever stands in place of
  -- its `protocol`, it is accepted under the same conditions.
  pub validate_catalog_iff :
      (catalog : Catalog L)
      → ((validate_catalog catalog ≡ ok tt) ↔ IsCatalog catalog)
        × ((protocol : Option ProtocolVersion)
            → (validate_catalog (record catalog { protocol = protocol }) ≡ ok tt)
              ↔ IsCatalog catalog)
  unfolding validate_catalog
  validate_catalog_iff catalog = (rules_iff catalog, λ protocol. rules_iff catalog)
