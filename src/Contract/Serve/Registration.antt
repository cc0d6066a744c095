-- ===== src/Contract/Serve/Registration.antt =====
-- What `serve` registers, and what a refusal leaves behind.
use mango_protocol.Common.{
  ℕ, ◌≡◌, ◌≢◌, refl, sym, ap, ◌∙◌, subst, ◌⊎◌, inl, inr, Text, text_eq, text_eq_iff, List, [], ◌∷◌,
  ◌++◌, true, none, some, Option-cases, Bool-cases, Result, ok, err, All, All-append, get, remove,
  list_eq, get_next, get-remove_self, get-remove_ne, arith,
}
use mango_protocol.Libs.{Libs}
use mango_protocol.Validate.Grammar.{rpc_discover}
use mango_protocol.Validate.Checks.{ValidationError}
use mango_protocol.Session.State.{Shared}
use mango_protocol.Session.Handlers.{HandlerGuard, handle, drop_guard, is_current}
use mango_protocol.Session.Handlers.Guards.{drop_current, get-handle}
use mango_protocol.Contract.{JsonSchema, CompiledMethod, Contract, find_method}
use mango_protocol.Contract.Serve.Registered.{given, last_given, handler_at, serve-Registers}
use mango_protocol.Contract.Serve.{ServeOptions, drop_all, serve_each, serve_discover, serve}

-- One of the guards holds this registration.
abbrev pub Owns : List HandlerGuard → Text → ℕ → Type 0
Owns [] name generation = ⊥
Owns (g ∷ guards) name generation =
    ((g.method ≡ name) × (g.generation ≡ generation) × (g.armed ≡ true))
    ⊎ Owns guards name generation

Owns-left :
    (a b : List HandlerGuard) (name : Text) (generation : ℕ)
    → Owns a name generation
    → Owns (a ++ b) name generation
Owns-left [] b name generation h = absurd h
Owns-left (g ∷ a) b name generation (inl h) = inl h
Owns-left (g ∷ a) b name generation (inr h) = inr (Owns-left a b name generation h)

Owns-last :
    (a : List HandlerGuard) (g : HandlerGuard)
    → g.armed ≡ true
    → Owns (a ++ g ∷ []) g.method g.generation
Owns-last [] g on = inl (refl, refl, on)
Owns-last (x ∷ a) g on = inr (Owns-last a g on)

module _ ⦃L : Libs⦄ where
  -- What a name is registered for: what it was, or a handler that one of the guards holds.
  abbrev pub Ours : Shared L → Shared L → List HandlerGuard → Text → Type 0
  Ours s₀ s guards name =
      (get name s.handlers ≡ get name s₀.handlers)
      ⊎ ((generation : ℕ) × (h : ℕ) × (get name s.handlers ≡ some (generation, h))
          × Owns guards name generation
          × (get name s₀.handlers ≡ none))

  abbrev pub Absent : Shared L → Text → Type 0
  Absent s name = get name s.handlers ≡ none

  removed_or_same :
      (g : HandlerGuard) (s : Shared L) (name : Text)
      → (get name (drop_guard g s).handlers ≡ get name s.handlers)
        ⊎ ((g.method ≡ name) × (get name (drop_guard g s).handlers ≡ none))
  unfolding drop_guard
  removed_or_same g s name = elim (Bool-cases g.armed) [
    | inr off ↦
        let e : drop_guard g s ≡ s = ground (arith, off) in
        inl (ap (λ (t : Shared L). get name t.handlers) e)
    | inl on ↦ elim (Bool-cases (is_current (get g.method s.handlers) g.generation)) [
      | inr old ↦
          let e : drop_guard g s ≡ s = ground (arith, on, old) in
          inl (ap (λ (t : Shared L). get name t.handlers) e)
      | inl current ↦
          let e : drop_guard g s ≡ record s { handlers = remove g.method s.handlers } =
            ground (arith, on, current) in
          let there = ap (λ (t : Shared L). get name t.handlers) e in
          elim (Bool-cases (text_eq g.method name)) [
            | inl same ↦
                let n : g.method ≡ name = (text_eq_iff g.method name).0 same in
                inr (
                  n,
                  there
                      ∙ subst (λ k. get k (remove g.method s.handlers) ≡ none) n
                          (get-remove_self g.method s.handlers),
                )
            | inr other ↦
                let ne : g.method ≢ name =
                  λ n. ground (arith, other, (text_eq_iff g.method name).1 n) in
                inl (there ∙ get-remove_ne g.method name s.handlers ne)
          ]
    ]
  ]

  dropped :
      (g : HandlerGuard) (s : Shared L) (h : ℕ)
      → g.armed ≡ true
      → get g.method s.handlers ≡ some (g.generation, h)
      → get g.method (drop_guard g s).handlers ≡ none
  dropped g s h on e =
      ap (λ (t : Shared L). get g.method t.handlers) (drop_current g s h on e)
      ∙ get-remove_self g.method s.handlers

  drop_one :
      (s₀ s : Shared L) (g : HandlerGuard) (guards : List HandlerGuard) (name : Text)
      → Absent s₀ g.method
      → Ours s₀ s (g ∷ guards) name
      → Ours s₀ (drop_guard g s) guards name
  drop_one s₀ s g guards name absent ours = elim (removed_or_same g s name) [
    | inr (n, gone) ↦ inl (gone ∙ sym (subst (Absent s₀) n absent))
    | inl same ↦ still same ours
  ]
    where
      still :
          get name (drop_guard g s).handlers ≡ get name s.handlers
          → Ours s₀ s (g ∷ guards) name
          → Ours s₀ (drop_guard g s) guards name
      still same (inl e) = inl (same ∙ e)
      still same (inr (gen, h, at, inr own, free)) = inr (gen, h, same ∙ at, own, free)
      still same (inr (gen, h, at, inl (n, e, on), free)) =
          let at_own : get g.method s.handlers ≡ some (g.generation, h) =
            subst (λ k. get k s.handlers ≡ some (g.generation, h)) (sym n)
              (at ∙ ap (λ (x : ℕ). some (x, h)) (sym e)) in
          inl (
            subst (λ k. get k (drop_guard g s).handlers ≡ none) n (dropped g s h on at_own)
            ∙ sym free)

  drop_every :
      (s₀ s : Shared L) (guards : List HandlerGuard) (name : Text)
      → All (λ (g : HandlerGuard). Absent s₀ g.method) guards
      → Ours s₀ s guards name
      → get name (drop_all guards s).handlers ≡ get name s₀.handlers
  unfolding drop_all
  drop_every s₀ s [] name absent (inl e) = e
  drop_every s₀ s [] name absent (inr (gen, h, at, own, free)) = absurd own
  drop_every s₀ s (g ∷ guards) name (absent, others) ours =
      drop_every s₀ (drop_guard g s) guards name others (drop_one s₀ s g guards name absent ours)

  -- Registering one more handler, whose guard joins the others.
  handle_one :
      (s₀ s : Shared L) (guards : List HandlerGuard) (method name : Text) (h : ℕ)
      → Absent s₀ method
      → Ours s₀ s guards name
      → Ours s₀ (handle s method h).0 (guards ++ (handle s method h).1 ∷ []) name
  unfolding handle
  handle_one s₀ s guards method name h absent ours = elim (Bool-cases (text_eq method name)) [
    | inl same ↦
        let n : method ≡ name = (text_eq_iff method name).0 same in
        inr (
          s.next_generation,
          h,
          subst (λ k. get k (handle s method h).0.handlers ≡ some (s.next_generation, h)) n
              (get-handle s method h),
          subst (λ k. Owns (guards ++ (handle s method h).1 ∷ []) k s.next_generation) n
              (Owns-last guards (handle s method h).1 refl),
          subst (Absent s₀) n absent,
        )
    | inr other ↦
        let ne : method ≢ name = λ n. ground (arith, other, (text_eq_iff method name).1 n) in
        let e : get name (handle s method h).0.handlers ≡ get name s.handlers =
          get_next method name (s.next_generation, h) (remove method s.handlers) ne
          ∙ get-remove_ne method name s.handlers ne in
        beside e ours
  ]
    where
      beside :
          get name (handle s method h).0.handlers ≡ get name s.handlers
          → Ours s₀ s guards name
          → Ours s₀ (handle s method h).0 (guards ++ (handle s method h).1 ∷ []) name
      beside e (inl same) = inl (e ∙ same)
      beside e (inr (gen, g, at, own, free)) =
          inr (gen, g, e ∙ at, Owns-left guards ((handle s method h).1 ∷ []) name gen own, free)

module _ ⦃L : Libs⦄ (V : JsonSchema L) (contract : Contract V) where
  -- A method of the contract.
  abbrev pub IsDeclared : Text × ℕ → Type 0
  IsDeclared (method, h) = (m : CompiledMethod V) × (find_method V method contract.methods ≡ some m)

  -- What a run of `serve` leaves: after a refusal every name as it was, and otherwise the handlers
  -- of declared methods, each held by a guard, and every other name as it was.
  pub record IsClean (s₀ : Shared L) (handlers : List (Text × ℕ))
      (r : Shared L × Result (List HandlerGuard) ValidationError) : Type 0 where
    pub refused :
        (e : ValidationError)
        → r.1 ≡ err e
        → (name : Text) → get name r.0.handlers ≡ get name s₀.handlers
    pub served :
        (guards : List HandlerGuard)
        → r.1 ≡ ok guards
        → All IsDeclared handlers × ((name : Text) → Ours s₀ r.0 guards name)

  serve_each-IsClean :
      (s₀ s : Shared L) (guards : List HandlerGuard) (handlers : List (Text × ℕ))
      → All (λ (g : HandlerGuard). Absent s₀ g.method) guards
      → All (λ (x : Text × ℕ). Absent s₀ x.0) handlers
      → ((name : Text) → Ours s₀ s guards name)
      → IsClean s₀ handlers (serve_each V contract guards handlers s)
  unfolding serve_each handle
  serve_each-IsClean s₀ s guards [] absent free ours = record {
    refused = λ e h name. absurd cc;
    served = λ gs h.
        let same : guards ≡ gs = ground arith in
        (tt, subst (λ x. (name : Text) → Ours s₀ s x name) same ours);
  }
  serve_each-IsClean s₀ s guards ((method, h) ∷ handlers) absent (free, frees) ours =
      let s' = (handle s method h).0 in
      let guards' = guards ++ (handle s method h).1 ∷ [] in
      let rest =
        serve_each-IsClean s₀ s' guards' handlers
          (All-append (λ (g : HandlerGuard). Absent s₀ g.method) guards _ absent (free, tt)) frees
          (λ name. handle_one s₀ s guards method name h free (ours name)) in
      elim (Option-cases (find_method V method contract.methods)) [
        | inl e ↦
            rw (e, serve_each)
              (record {
                refused = λ x k name. drop_every s₀ s guards name absent (ours name);
                served = λ gs k. absurd cc;
              })
        | inr (m, e) ↦
            rw (e, serve_each)
              (record {
                refused = rest.refused;
                served = λ gs k. let r = rest.served gs k in (((m, e), r.0), r.1);
              })
      ]

  discover-IsClean :
      (s : Shared L) (handlers : List (Text × ℕ)) (h : ℕ) (catalog : Result L.Value Text)
      → Absent s rpc_discover
      → All (λ (x : Text × ℕ). Absent s x.0) handlers
      → IsClean s handlers (serve_discover V contract handlers h catalog s)
  unfolding serve_discover handle
  discover-IsClean s handlers h (err x) free frees = record {
    refused = λ e k name. refl;
    served = λ gs k. absurd cc;
  }
  discover-IsClean s handlers h (ok value) free frees =
      serve_each-IsClean s (handle s rpc_discover h).0 ((handle s rpc_discover h).1 ∷ []) handlers
        (free, tt) frees (λ name. handle_one s s [] rpc_discover name h free (inl refl))

  serve-whole :
      (options : ServeOptions L) (s : Shared L) (handlers : List (Text × ℕ)) (h : ℕ)
      (catalog : Result L.Value Text)
      → Absent s rpc_discover
      → All (λ (x : Text × ℕ). Absent s x.0) handlers
      → IsClean s handlers (serve V contract options handlers h catalog s)
  unfolding serve
  serve-whole options s handlers h catalog free frees = elim (Bool-cases options.discover) [
    | inl on ↦ rw (on, serve) (discover-IsClean s handlers h catalog free frees)
    | inr off ↦ rw (off, serve) (serve_each-IsClean s s [] handlers tt frees (λ name. inl refl))
  ]

  -- If neither `rpc.discover` nor any of the methods has a handler yet: where `serve` is refused,
  -- every name has the handlers it had before. Where it is not, every method that it was given is
  -- one of the contract; each of them, and `rpc.discover` unless it is opted out, has the last
  -- handler that was given for it, which one of the guards holds; and every other name is as it was.
  pub serve-IsClean :
      (options : ServeOptions L) (s : Shared L) (handlers : List (Text × ℕ)) (h : ℕ)
      (catalog : Result L.Value Text)
      → Absent s rpc_discover
      → All (λ (x : Text × ℕ). Absent s x.0) handlers
      → IsClean s handlers (serve V contract options handlers h catalog s)
        × ((guards : List HandlerGuard)
            → (serve V contract options handlers h catalog s).1 ≡ ok guards
            → (name : Text)
            → handler_at (serve V contract options handlers h catalog s).0 name
              ≡ last_given name (given options h handlers) (handler_at s name))
  serve-IsClean options s handlers h catalog free frees = (
    serve-whole options s handlers h catalog free frees,
    serve-Registers V contract options s handlers h catalog,
  )
