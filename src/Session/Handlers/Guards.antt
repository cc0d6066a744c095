-- ===== src/Session/Handlers/Guards.antt =====
-- A guard unregisters its own handler and no other.
use mango_protocol.Common.{
  ℕ, ◌^◌, ◌<◌, ◌≡◌, ◌≢◌, refl, ap, ◌∙◌, Text, true, false, none, some, get, remove, list_eq, arith,
  Bool-cases, inl, inr, get_first, get_next, get-remove_self, get-remove_ne,
}
use mango_protocol.Libs.{Libs}
use mango_protocol.Session.State.{Shared}
use mango_protocol.Session.Handlers.{HandlerGuard, persist, handle, drop_guard}

module _ ⦃L : Libs⦄ where
  pub drop_current :
      (guard : HandlerGuard) (s : Shared L) (handler : ℕ)
      → guard.armed ≡ true
      → get guard.method s.handlers ≡ some (guard.generation, handler)
      → drop_guard guard s ≡ record s { handlers = remove guard.method s.handlers }
  unfolding drop_guard
  drop_current guard s handler on h = ground (arith, on, h)

  drop_replaced :
      (guard : HandlerGuard) (s : Shared L) (generation handler : ℕ)
      → get guard.method s.handlers ≡ some (generation, handler)
      → generation ≢ guard.generation
      → drop_guard guard s ≡ s
  unfolding drop_guard
  drop_replaced guard s generation handler h other = elim (Bool-cases guard.armed) [
    | inl on ↦ ground (arith, on, h)
    | inr off ↦ ground (arith, off)
  ]

  drop_unarmed :
      (guard : HandlerGuard) (s : Shared L) → guard.armed ≡ false → drop_guard guard s ≡ s
  unfolding drop_guard
  drop_unarmed guard s off = ground (arith, off)

  pub get-handle :
      (s : Shared L) (method : Text) (handler : ℕ)
      → get method (handle s method handler).0.handlers ≡ some (s.next_generation, handler)
  unfolding handle
  get-handle s method handler =
      get_first method (s.next_generation, handler) (remove method s.handlers)

  -- Registering a handler makes it the one that is found, and dropping its guard unregisters it and
  -- leaves the other methods as they were before; the guard of a handler that has been replaced, or
  -- one that was persisted, changes nothing. The generation is a `u64`.
  pub drop_guard-handle :
      (s : Shared L) (method : Text) (first second : ℕ)
      → s.next_generation < 2 ^ 64
      → (get method (handle s method first).0.handlers ≡ some (s.next_generation, first))
        × (get method (drop_guard (handle s method first).1 (handle s method first).0).handlers
            ≡ none)
        × ((other : Text)
            → method ≢ other
            → get other (drop_guard (handle s method first).1 (handle s method first).0).handlers
              ≡ get other s.handlers)
        × (drop_guard (handle s method first).1 (handle (handle s method first).0 method second).0
            ≡ (handle (handle s method first).0 method second).0)
        × ((t : Shared L) → drop_guard (persist (handle s method first).1) t ≡ t)
  unfolding handle
  drop_guard-handle s method first second machine =
      let s1 = (handle s method first).0 in
      let own = drop_current (handle s method first).1 s1 first refl (get-handle s method first) in
      (
        get-handle s method first,
        ap (λ (t : Shared L). get method t.handlers) own ∙ get-remove_self method s1.handlers,
        λ other ne.
            ap (λ (t : Shared L). get other t.handlers) own
            ∙ get-remove_ne method other s1.handlers ne
            ∙ get_next method other (s.next_generation, first) (remove method s.handlers) ne
            ∙ get-remove_ne method other s.handlers ne,
        drop_replaced (handle s method first).1 (handle s1 method second).0 s1.next_generation
            second (get-handle s1 method second) (λ e. absurd (omega arith)),
        λ t. drop_unarmed (persist (handle s method first).1) t refl,
      )
