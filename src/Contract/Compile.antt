-- ===== src/Contract/Compile.antt =====
-- Which catalogs compile, and what a compiled contract holds.
use mango_protocol.Common.{
  ℕ, ◌+◌, ◌≡◌, refl, sym, subst, ◌↔◌, inl, inr, Text, List, [], ◌∷◌, false, Option, none, some,
  Result, ok, err, ◌>>◌, Result-cases, All, arith,
}
use mango_protocol.Libs.{Libs}
use mango_protocol.Wire.Error.{lit}
use mango_protocol.Validate.Grammar.{is_reserved_method_name}
use mango_protocol.Validate.Checks.{Checked, ValidationError}
use mango_protocol.Validate.Schema.{IfPresent}
use mango_protocol.Catalog.{Shapes, CatalogMethod, CatalogEvent, Catalog, member_of}
use mango_protocol.Catalog.Rules.{IsCatalog, validate_catalog_iff, check_each_iff}
use mango_protocol.Contract.{
  JsonSchema, CompiledMethod, Contract, compile_schema, assert_not_reserved, compile_method,
  compile_methods, check_schema, check_optional_schema, finish_compile, compile,
}

-- What a chain of two fallible steps needs to succeed.
seq_value_iff {ℓ} :
    {B : Type ℓ} {P : Type 0} (m : Checked) (k : Result B ValidationError) (b : B)
    → (m ≡ ok tt) ↔ P
    → ((m >> k) ≡ ok b) ↔ (P × (k ≡ ok b))
seq_value_iff (ok tt) k b p = (λ h. (p.0 refl, h), λ h. h.1)
seq_value_iff (err e) k b p = (λ h. cc, λ h. cc (p.1 h.0))

module _ {L : Libs} (V : JsonSchema L) where
  abbrev pub Builds : L.Value → Type 0
  Builds schema = (validator : V.Validator) × (V.build schema ≡ ok validator)

  -- A method with the validators of its two schemas.
  pub record IsCompiled (m : CatalogMethod L) (k : CompiledMethod V) : Type 0 where
    pub definition : k.definition ≡ m
    pub params : V.build m.params ≡ ok k.params
    pub result : V.build m.result ≡ ok k.result

  abbrev pub AreCompiled : List (CatalogMethod L) → List (CompiledMethod V) → Type 0
  AreCompiled [] [] = Unit {0}
  AreCompiled [] (k ∷ ks) = ⊥
  AreCompiled (m ∷ ms) [] = ⊥
  AreCompiled (m ∷ ms) (k ∷ ks) = IsCompiled m k × AreCompiled ms ks

  abbrev IsFree : Text → Type 0
  IsFree name = is_reserved_method_name name ≡ false

  compile_schema_iff :
      (field : Text) (schema : L.Value) (v : V.Validator)
      → (compile_schema V field schema ≡ ok v) ↔ (V.build schema ≡ ok v)
  unfolding compile_schema
  compile_schema_iff field schema v = elim (Result-cases (V.build schema)) [
    | inl (w, e) ↦ (λ h. ground (arith, e), λ h. ground (arith, e))
    | inr (x, e) ↦ (λ h. absurd (ground (arith, e)), λ h. absurd (ground (arith, e)))
  ]

module _ ⦃L : Libs⦄ ⦃J : Shapes L⦄ (V : JsonSchema L) where
  IsFree-iff : (field name : Text) → (assert_not_reserved field name ≡ ok tt) ↔ IsFree V name
  unfolding assert_not_reserved
  IsFree-iff field name = (λ h. ground arith, λ h. ground arith)

  schema_iff :
      (field : Text) (schema : L.Value) → (check_schema V field schema ≡ ok tt) ↔ Builds V schema
  unfolding check_schema
  schema_iff field schema = elim (Result-cases (compile_schema V field schema)) [
    | inl (v, e) ↦ (λ h. (v, (compile_schema_iff V field schema v).0 e), λ h. rw e refl)
    | inr (x, e) ↦ (
      λ h. absurd (ground (arith, e)),
      λ h. absurd (ground (arith, e, (compile_schema_iff V field schema h.0).1 h.1)),
    )
  ]

  method_compiles :
      (index : ℕ) (m : CatalogMethod L) (k : CompiledMethod V)
      → (compile_method V index m ≡ ok k) ↔ IsCompiled V m k
  unfolding compile_method
  method_compiles index m k =
      let p = member_of (lit "methods") index (lit "params") in
      let r = member_of (lit "methods") index (lit "result") in
      (
        λ h. elim (Result-cases (compile_schema V p m.params)) [
          | inr (x, e) ↦ absurd (ground (arith, e))
          | inl (v, e) ↦ elim (Result-cases (compile_schema V r m.result)) [
            | inr (x, f) ↦ absurd (ground (arith, e, f))
            | inl (w, f) ↦
                let same : record { definition = m; params = v; result = w } ≡ k =
                  ground (arith, e, f) in
                subst (IsCompiled V m) same (record {
                  definition = refl;
                  params = (compile_schema_iff V p m.params v).0 e;
                  result = (compile_schema_iff V r m.result w).0 f;
                })
          ]
        ],
        λ c.
            rw
              (
                (compile_schema_iff V p m.params k.params).1 c.params,
                (compile_schema_iff V r m.result k.result).1 c.result,
                sym c.definition,
              )
              refl,
      )

  methods_sound :
      (index : ℕ) (ms : List (CatalogMethod L)) (ks : List (CompiledMethod V))
      → compile_methods V index ms ≡ ok ks
      → AreCompiled V ms ks
  unfolding compile_methods
  methods_sound index [] ks h =
      let same : [] ≡ ks = ground arith in subst (AreCompiled V []) same tt
  methods_sound index (m ∷ ms) ks h = elim (Result-cases (compile_method V index m)) [
    | inr (x, e) ↦ absurd (ground (arith, e))
    | inl (k, e) ↦ elim (Result-cases (compile_methods V (index + 1) ms)) [
      | inr (x, f) ↦ absurd (ground (arith, e, f))
      | inl (others, f) ↦
          let same : k ∷ others ≡ ks = ground (arith, e, f) in
          subst (AreCompiled V (m ∷ ms)) same
            ((method_compiles index m k).0 e, methods_sound (index + 1) ms others f)
    ]
  ]

  methods_complete :
      (index : ℕ) (ms : List (CatalogMethod L)) (ks : List (CompiledMethod V))
      → AreCompiled V ms ks
      → compile_methods V index ms ≡ ok ks
  unfolding compile_methods
  methods_complete index [] [] c = refl
  methods_complete index [] (k ∷ ks) c = absurd c
  methods_complete index (m ∷ ms) [] c = absurd c
  methods_complete index (m ∷ ms) (k ∷ ks) c =
      rw ((method_compiles index m k).1 c.0, methods_complete (index + 1) ms ks c.1) refl

  optional_schema_iff :
      (o : Option L.Value) → (check_optional_schema V o ≡ ok tt) ↔ IfPresent (Builds V) o
  unfolding check_optional_schema
  optional_schema_iff none = (λ h. tt, λ h. refl)
  optional_schema_iff (some v) = schema_iff _ v

  -- A catalog that keeps the rules and stays out of the reserved names, and of which every schema
  -- builds; the contract is this catalog with the validators of its methods.
  pub record Compiles (catalog : Catalog L) (k : Contract V) : Type 0 where
    pub rules : IsCatalog catalog
    pub methods :
        All (λ (m : CatalogMethod L). is_reserved_method_name m.name ≡ false) catalog.methods
    pub events :
        All (λ (e : CatalogEvent L). is_reserved_method_name e.topic ≡ false) catalog.events
    pub compiled : AreCompiled V catalog.methods k.methods
    pub payloads : All (λ (e : CatalogEvent L). Builds V e.payload) catalog.events
    pub capabilities : IfPresent (Builds V) catalog.capabilities
    pub same : k.catalog ≡ catalog

  finished_iff :
      (catalog : Catalog L) (r : Result (List (CompiledMethod V)) ValidationError) (k : Contract V)
      → (finish_compile V catalog r ≡ ok k) ↔ (
          (r ≡ ok k.methods)
          × (All (λ (e : CatalogEvent L). Builds V e.payload) catalog.events
              × (IfPresent (Builds V) catalog.capabilities × (k.catalog ≡ catalog))))
  unfolding finish_compile
  finished_iff catalog (err x) k = (λ h. cc, λ h. absurd (ground (arith, h.0)))
  finished_iff catalog (ok ms) k =
      let payloads =
        check_each_iff
          (λ index (event : CatalogEvent L).
            check_schema V (member_of (lit "events") index (lit "payload")) event.payload)
          (λ (e : CatalogEvent L). Builds V e.payload) (λ index e. schema_iff _ e.payload) 0
          catalog.events in
      let both =
        seq_value_iff _ (check_optional_schema V catalog.capabilities >> ok _) k payloads in
      let last =
        seq_value_iff _ (ok (record { catalog = catalog; methods = ms })) k
          (optional_schema_iff catalog.capabilities) in
      (
        λ h.
            let b = both.0 h in
            let l = last.0 b.1 in (ground (arith, l.1), (b.0, (l.0, ground (arith, l.1)))),
        λ h. both.1 (h.1.0, last.1 (h.1.1.0, ground (arith, h.0, h.1.1.1))),
      )

  -- `compile` gives a contract exactly where the catalog keeps the rules of `validate`, no method
  -- name or topic is reserved, and every schema of it builds; and then the contract is this
  -- catalog, with each of its methods, in order, beside the validators of its own two schemas.
  pub compile_iff :
      (catalog : Catalog L) (k : Contract V) → (compile V catalog ≡ ok k) ↔ Compiles catalog k
  unfolding compile
  compile_iff catalog k =
      let done = finished_iff catalog (compile_methods V 0 catalog.methods) k in
      let events =
        seq_value_iff _ (finish_compile V catalog (compile_methods V 0 catalog.methods)) k (
          check_each_iff _ (λ (e : CatalogEvent L). IsFree V e.topic)
            (λ index e. IsFree-iff _ e.topic) 0 catalog.events) in
      let methods = seq_value_iff _ _ k (
        check_each_iff _ (λ (m : CatalogMethod L). IsFree V m.name) (λ index m. IsFree-iff _ m.name)
          0 catalog.methods) in
      let rules = seq_value_iff _ _ k (validate_catalog_iff catalog).0 in
      (
        λ h.
            let a = rules.0 h in
            let b = methods.0 a.1 in
            let c = events.0 b.1 in
            let d = done.0 c.1 in
            record {
              rules = a.0;
              methods = b.0;
              events = c.0;
              compiled = methods_sound 0 catalog.methods k.methods d.0;
              payloads = d.1.0;
              capabilities = d.1.1.0;
              same = d.1.1.1;
            },
        λ v. rules.1 (
          v.rules,
          methods.1 (
            v.methods,
            events.1 (
              v.events,
              done.1 (
                methods_complete 0 catalog.methods k.methods v.compiled,
                (v.payloads, (v.capabilities, v.same)),
              ),
            ),
          ),
        ),
      )
