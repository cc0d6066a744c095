-- ===== src/Contract/Serve/Order.antt =====
-- In which order a served method checks, asks and runs, and when it succeeds.
use mango_protocol.Common.{
  ◌≡◌, refl, ap, subst, ◌↔◌, inl, inr, Text, List, [], ◌∷◌, true, Option, none, some, Option-cases,
  Bool-cases, Result, ok, err, Result-cases, arith,
}
use mango_protocol.Libs.{Libs}
use mango_protocol.Wire.Error.{RemoteError}
use mango_protocol.Contract.{
  JsonSchema, first_violation, params_refusal, check_params, result_refusal, check_result, decode,
}
use mango_protocol.Contract.Serve.{
  TypedHandler, Guard, Call, guarded, handled, MethodPolicy, Answer, serialise, call_decoded, call,
  answer_result, answer_guarded, answer_checked, answer_when, answer,
}

abbrev pub Handles : {L : Libs} → List (Call L) → Type 0
Handles [] = ⊥
Handles (handled ∷ calls) = Unit {0}
Handles (guarded capabilities ∷ calls) = Handles calls

abbrev pub Accepts : {L : Libs} → Text → L.Value → List Text → Option (Guard L) → Type 0
Accepts method params capabilities none = Unit {0}
Accepts method params capabilities (some guard) = guard method params capabilities ≡ ok tt

-- What the handler makes of the parameters.
pub record Produces {L : Libs} (h : TypedHandler L) (params value : L.Value) : Type 0 where
  pub read : h.Params
  pub output : h.Output
  pub decoded : h.from_value params ≡ ok read
  pub returned : h.handler read ≡ ok output
  pub written : h.to_value output ≡ ok value

module _ ⦃L : Libs⦄ (V : JsonSchema L) (method : Text) (params : L.Value) (h : TypedHandler L)
    (policy : MethodPolicy V) where
  -- Everything that a successful answer has passed.
  pub record IsServed (value : L.Value) : Type 0 where
    pub checked : first_violation V policy.params_validator params ≡ none
    pub allowed : Accepts method params policy.capabilities policy.guard
    pub produced : Produces h params value
    pub fits :
        policy.validate_results ≡ true → first_violation V policy.result_validator value ≡ none

  params_iff :
      (check_params V method policy.params_validator params ≡ ok tt)
      ↔ (first_violation V policy.params_validator params ≡ none)
  unfolding check_params params_refusal
  params_iff = elim (Option-cases (first_violation V policy.params_validator params)) [
    | inl e ↦ (λ h. e, λ h. ground (arith, e))
    | inr (v, e) ↦ (λ h. absurd (ground (arith, e)), λ h. absurd (ground (arith, e)))
  ]

  result_iff :
      (value : L.Value)
      → (check_result V method policy.result_validator value ≡ ok tt)
        ↔ (first_violation V policy.result_validator value ≡ none)
  unfolding check_result result_refusal
  result_iff value = elim (Option-cases (first_violation V policy.result_validator value)) [
    | inl e ↦ (λ h. e, λ h. ground (arith, e))
    | inr (v, e) ↦ (λ h. absurd (ground (arith, e)), λ h. absurd (ground (arith, e)))
  ]

  call_iff : (value : L.Value) → ((call h method params).1 ≡ ok value) ↔ Produces h params value
  unfolding call decode call_decoded serialise
  call_iff value = elim (Result-cases (h.from_value params)) [
    | inr (x, e) ↦ (λ k. absurd (ground (arith, e)), λ p. absurd (ground (arith, e, p.decoded)))
    | inl (read, e) ↦ elim (Result-cases (h.handler read)) [
      | inr (x, f) ↦ (
        λ k. absurd (ground (arith, e, f)),
        λ p. absurd (ground (arith, e, f, p.decoded, p.returned)),
      )
      | inl (output, f) ↦ elim (Result-cases (h.to_value output)) [
        | inr (x, g) ↦ (
          λ k. absurd (ground (arith, e, f, g)),
          λ p. absurd (ground (arith, e, f, g, p.decoded, p.returned, p.written)),
        )
        | inl (v, g) ↦ (
          λ k. record {
            read = read;
            output = output;
            decoded = e;
            returned = f;
            written = ground (arith, e, f, g);
          },
          λ p. ground (arith, e, f, g, p.decoded, p.returned, p.written),
        )
      ]
    ]
  ]

  abbrev Fits : L.Value → Type 0
  Fits value =
      policy.validate_results ≡ true → first_violation V policy.result_validator value ≡ none

  answer_result_iff :
      (calls : List (Call L)) (r : Result L.Value (RemoteError L)) (value : L.Value)
      → ((answer_result V method policy (calls, r)).1 ≡ ok value) ↔ ((r ≡ ok value) × Fits value)
  unfolding answer_result
  answer_result_iff calls (err error) value = (λ k. absurd cc, λ k. absurd (ground (arith, k.0)))
  answer_result_iff calls (ok result) value = elim (Bool-cases policy.validate_results) [
    | inr off ↦ (
      λ k. (ground (arith, off), λ on. absurd (ground (arith, off))),
      λ k. ground (arith, off, k.0),
    )
    | inl on ↦ elim (Result-cases (check_result V method policy.result_validator result)) [
      | inl (u, e) ↦ (
        λ k.
            let same : result ≡ value = ground (arith, on, e) in
            (
              ap ok same,
              λ _.
                  subst (λ v. first_violation V policy.result_validator v ≡ none) same
                    ((result_iff result).0 e),
            ),
        λ k. ground (arith, on, e, k.0),
      )
      | inr (x, e) ↦ (
        λ k. absurd (ground (arith, on, e)),
        λ k.
            let same : value ≡ result = ground (arith, k.0) in
            let clear =
              subst (λ v. first_violation V policy.result_validator v ≡ none) same (k.1 on) in
            absurd (ground (arith, e, (result_iff result).1 clear)),
      )
    ]
  ]

  guarded_iff :
      (r : Result (Unit {0}) (RemoteError L)) (value : L.Value)
      → ((answer_guarded V method params h policy r).1 ≡ ok value)
        ↔ ((r ≡ ok tt) × (Produces h params value × Fits value))
  unfolding answer_guarded
  guarded_iff (err error) value = (λ k. absurd cc, λ k. absurd (ground (arith, k.0)))
  guarded_iff (ok _) value =
      let a = call h method params in
      let both = answer_result_iff a.0 a.1 value in
      (
        λ k. let b = both.0 k in (refl, ((call_iff value).0 b.0, b.1)),
        λ k. both.1 ((call_iff value).1 k.1.0, k.1.1),
      )

  checked_iff :
      (o : Option (Guard L)) (value : L.Value)
      → ((answer_checked V method params h policy o).1 ≡ ok value)
        ↔ (Accepts method params policy.capabilities o × (Produces h params value × Fits value))
  unfolding answer_checked
  checked_iff none value =
      let both = guarded_iff (ok tt) value in (λ k. (tt, (both.0 k).1), λ k. both.1 (refl, k.1))
  checked_iff (some guard) value = guarded_iff (guard method params policy.capabilities) value

  when_iff :
      (r : Result (Unit {0}) (RemoteError L)) (value : L.Value)
      → ((answer_when V method params h policy r).1 ≡ ok value) ↔ (
          (r ≡ ok tt)
          × (Accepts method params policy.capabilities policy.guard
              × (Produces h params value × Fits value)))
  unfolding answer_when
  when_iff (err error) value = (λ k. absurd cc, λ k. absurd (ground (arith, k.0)))
  when_iff (ok _) value =
      let both = checked_iff policy.guard value in (λ k. (refl, both.0 k), λ k. both.1 k.1)

  guarded-Handles :
      (r : Result (Unit {0}) (RemoteError L))
      → Handles (answer_guarded V method params h policy r).0
      → r ≡ ok tt
  unfolding answer_guarded
  guarded-Handles (err error) k = absurd k
  guarded-Handles (ok _) k = refl

  checked-Handles :
      (o : Option (Guard L))
      → Handles (answer_checked V method params h policy o).0
      → Accepts method params policy.capabilities o
  unfolding answer_checked
  checked-Handles none k = tt
  checked-Handles (some guard) k = guarded-Handles (guard method params policy.capabilities) k

  when-Handles :
      (r : Result (Unit {0}) (RemoteError L))
      → Handles (answer_when V method params h policy r).0
      → (r ≡ ok tt) × Accepts method params policy.capabilities policy.guard
  unfolding answer_when
  when-Handles (err error) k = absurd k
  when-Handles (ok _) k = (refl, checked-Handles policy.guard k)

  when_untouched :
      (r : Result (Unit {0}) (RemoteError L)) (e : RemoteError L)
      → r ≡ err e
      → answer_when V method params h policy r ≡ ([], err e)
  unfolding answer_when
  when_untouched (ok _) e k = absurd cc
  when_untouched (err x) e k = cc

  -- The handler of a served method runs only where the parameters have no violation of their schema
  -- and the guard, where there is one, accepts them; where they have one, neither runs. A method
  -- answers with a value exactly where all this holds, the handler makes this value of the
  -- parameters and, where results are validated, it has no violation of its schema.
  pub answer-IsServed :
      (Handles (answer V method params h policy).0
        → (first_violation V policy.params_validator params ≡ none)
          × Accepts method params policy.capabilities policy.guard)
      × ((first_violation V policy.params_validator params ≡ none → ⊥)
          → (answer V method params h policy).0 ≡ [])
      × ((value : L.Value) → ((answer V method params h policy).1 ≡ ok value) ↔ IsServed value)
  unfolding answer
  answer-IsServed =
      let check = check_params V method policy.params_validator params in
      (
        λ k. let w = when-Handles check k in (params_iff.0 w.0, w.1),
        λ bad. elim (Result-cases check) [
          | inl (u, e) ↦ absurd (bad (params_iff.0 e))
          | inr (x, e) ↦ ap (λ (a : Answer). a.0) (when_untouched check x e)
        ],
        λ value.
            let both = when_iff check value in
            (
              λ k.
                  let w = both.0 k in
                  record {
                    checked = params_iff.0 w.0;
                    allowed = w.1.0;
                    produced = w.1.1.0;
                    fits = w.1.1.1;
                  },
              λ s. both.1 (params_iff.1 s.checked, (s.allowed, (s.produced, s.fits))),
            ),
      )
