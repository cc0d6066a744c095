-- ===== src/Contract/Serve/Registered.antt =====
-- Which handler every name has behind `serve`.
use mango_protocol.Common.{
  ℕ, ◌≡◌, refl, ◌≢◌, ap, ◌∙◌, subst, Text, text_eq, text_eq_iff, List, [], ◌∷◌, ◌++◌, Option, none,
  some, Option-cases, Bool-cases, inl, inr, if◌then◌else◌, Result, ok, err, get, remove, list_eq,
  get_next, get-remove_ne, arith,
}
use mango_protocol.Libs.{Libs}
use mango_protocol.Validate.Grammar.{rpc_discover}
use mango_protocol.Validate.Checks.{ValidationError}
use mango_protocol.Session.State.{Shared}
use mango_protocol.Session.Handlers.{HandlerGuard, handle}
use mango_protocol.Session.Handlers.Guards.{get-handle}
use mango_protocol.Contract.{JsonSchema, Contract, find_method}
use mango_protocol.Contract.Serve.{ServeOptions, serve_each, serve_discover, serve}

-- The last handler that is given for a name, or else the one it had.
abbrev pub last_given : Text → List (Text × ℕ) → Option ℕ → Option ℕ
last_given name [] old = old
last_given name ((method, h) ∷ handlers) old =
    last_given name handlers (if text_eq method name then some h else old)

abbrev handler_in : Option (ℕ × ℕ) → Option ℕ
handler_in none = none
handler_in (some (generation, h)) = some h

module _ ⦃L : Libs⦄ where
  abbrev pub handler_at : Shared L → Text → Option ℕ
  handler_at s name = handler_in (get name s.handlers)

  -- What `serve` is given: the handlers, behind the one of `rpc.discover` unless it is opted out.
  abbrev pub given : ServeOptions L → ℕ → List (Text × ℕ) → List (Text × ℕ)
  given options h handlers = if options.discover then (rpc_discover, h) ∷ handlers else handlers

  handler_at-handle :
      (s : Shared L) (method name : Text) (h : ℕ)
      → handler_at (handle s method h).0 name
        ≡ (if text_eq method name then some h else handler_at s name)
  unfolding handle
  handler_at-handle s method name h = elim (Bool-cases (text_eq method name)) [
    | inl same ↦
        let n : method ≡ name = (text_eq_iff method name).0 same in
        rw same (
          subst (λ k. handler_at (handle s method h).0 k ≡ some h) n
            (ap handler_in (get-handle s method h)))
    | inr other ↦
        let ne : method ≢ name = λ n. ground (arith, other, (text_eq_iff method name).1 n) in
        rw other (
          ap handler_in (
            get_next method name (s.next_generation, h) (remove method s.handlers) ne
            ∙ get-remove_ne method name s.handlers ne))
  ]

  module _ (V : JsonSchema L) (contract : Contract V) where
    abbrev Registers :
        Shared L → List (Text × ℕ) → Shared L × Result (List HandlerGuard) ValidationError → Type 0
    Registers s handlers r =
        (guards : List HandlerGuard)
        → r.1 ≡ ok guards
        → (name : Text) → handler_at r.0 name ≡ last_given name handlers (handler_at s name)

    serve_each-Registers :
        (guards : List HandlerGuard) (handlers : List (Text × ℕ)) (s : Shared L)
        → Registers s handlers (serve_each V contract guards handlers s)
    unfolding serve_each
    serve_each-Registers guards [] s = λ gs e name. refl
    serve_each-Registers guards ((method, h) ∷ handlers) s =
        let rest =
          serve_each-Registers (guards ++ (handle s method h).1 ∷ []) handlers
            (handle s method h).0 in
        elim (Option-cases (find_method V method contract.methods)) [
          | inl e ↦ rw (e, serve_each) (λ gs k. absurd cc)
          | inr (m, e) ↦
              rw (e, serve_each)
                (λ gs k name.
                  rest gs k name
                  ∙ ap (last_given name handlers) (handler_at-handle s method name h))
        ]

    serve_discover-Registers :
        (handlers : List (Text × ℕ)) (h : ℕ) (catalog : Result L.Value Text) (s : Shared L)
        → Registers s
            ((rpc_discover, h) ∷ handlers)
            (serve_discover V contract handlers h catalog s)
    unfolding serve_discover
    serve_discover-Registers handlers h (err x) s = λ gs k. absurd cc
    serve_discover-Registers handlers h (ok value) s =
        let rest =
          serve_each-Registers ((handle s rpc_discover h).1 ∷ []) handlers
            (handle s rpc_discover h).0 in
        λ gs k name.
          rest gs k name ∙ ap (last_given name handlers) (handler_at-handle s rpc_discover name h)

    pub serve-Registers :
        (options : ServeOptions L) (s : Shared L) (handlers : List (Text × ℕ)) (h : ℕ)
        (catalog : Result L.Value Text)
        → Registers s (given options h handlers) (serve V contract options handlers h catalog s)
    unfolding serve
    serve-Registers options s handlers h catalog = elim (Bool-cases options.discover) [
      | inl on ↦ rw (on, serve) (serve_discover-Registers handlers h catalog s)
      | inr off ↦ rw (off, serve) (serve_each-Registers [] handlers s)
    ]
