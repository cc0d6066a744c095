-- ===== src/Common/Dicts.antt =====
-- `HashMap` as an association list. Its order is not observed: only `get`, `insert`, `remove`,
-- `contains_key` and `len` are used of it.
use Prim.Native.Nat.{ℕ, ◌≤◌}
use mathlib.Core.Path.{◌≡◌, refl}
use mathlib.Core.Logic.{◌↔◌, ◌≢◌}
use mathlib.Core.Bool.{Bool, true, false}
use mathlib.Core.List.{List, [], ◌∷◌}
use mathlib.Core.Option.{Option, none, some}
use native.Mathlib.Omega.{arith}
use mango_protocol.Common.Tests.{◌==◌, ==_iff, if◌then◌else◌}
use mango_protocol.Common.Lists.{length}
use mango_protocol.Common.Texts.{text_eq, text_eq_iff}

-- The equality of keys.
pub record Eq {ℓ} (A : Type ℓ) : Type ℓ where
  pub beq : A → A → Bool
  pub beq_iff : (a b : A) → (beq a b ≡ true) ↔ (a ≡ b)

instance abbrev pub nat_eq : Eq ℕ
nat_eq = record { beq = ◌==◌; beq_iff = ==_iff }

instance abbrev pub list_eq : Eq (List ℕ)
list_eq = record { beq = text_eq; beq_iff = text_eq_iff }

abbrev pub Dict {ℓ κ} : Type ℓ → Type κ → Type (ℓ ⊔ κ)
Dict K V = List (K × V)

module _ {ℓ κ} {K : Type ℓ} {V : Type κ} ⦃e : Eq K⦄ where
  unfoldable pub get : K → List (K × V) → Option V
  get k [] = none
  get k ((j, v) ∷ m) = if e.beq j k then some v else get k m

  unfoldable pub remove : K → List (K × V) → List (K × V)
  remove k [] = []
  remove k ((j, v) ∷ m) = if e.beq j k then remove k m else (j, v) ∷ remove k m

  abbrev pub insert : K → V → List (K × V) → List (K × V)
  insert k v m = (k, v) ∷ remove k m

  abbrev pub contains_key : K → List (K × V) → Bool
  contains_key k m = elim (get k m) [ none ↦ false | some _ ↦ true ]

  pub get-remove_self : (k : K) (m : List (K × V)) → get k (remove k m) ≡ none
  unfolding get remove
  get-remove_self k [] = refl
  get-remove_self k ((j, v) ∷ m) = ground (arith, e.beq_iff j k, get-remove_self k m)

  pub get-remove_ne : (k j : K) (m : List (K × V)) → k ≢ j → get j (remove k m) ≡ get j m
  unfolding get remove
  get-remove_ne k j [] h = refl
  get-remove_ne k j ((i, v) ∷ m) h =
      ground (arith, e.beq_iff i k, e.beq_iff i j, get-remove_ne k j m h)

  pub length-remove-le : (k : K) (m : List (K × V)) → length (remove k m) ≤ length m
  unfolding remove
  length-remove-le k [] = omega arith
  length-remove-le k ((j, v) ∷ m) = ground (arith, length-remove-le k m)

  pub remove_absent : (k : K) (m : List (K × V)) → get k m ≡ none → remove k m ≡ m
  unfolding get remove
  remove_absent k [] h = refl
  remove_absent k ((j, v) ∷ m) h = ground (arith, e.beq_iff j k, remove_absent k m)

  pub get_first : (k : K) (v : V) (m : List (K × V)) → get k ((k, v) ∷ m) ≡ some v
  unfolding get
  get_first k v m = ground (arith, e.beq_iff k k)

  pub get_next : (j k : K) (v : V) (m : List (K × V)) → j ≢ k → get k ((j, v) ∷ m) ≡ get k m
  unfolding get
  get_next j k v m h = ground (arith, e.beq_iff j k)

  pub remove_first : (k : K) (v : V) (m : List (K × V)) → remove k ((k, v) ∷ m) ≡ remove k m
  unfolding remove
  remove_first k v m = ground (arith, e.beq_iff k k)

  pub remove_next :
      (j k : K) (v : V) (m : List (K × V)) → j ≢ k → remove k ((j, v) ∷ m) ≡ (j, v) ∷ remove k m
  unfolding remove
  remove_next j k v m h = ground (arith, e.beq_iff j k)
