-- ===== src/Codec/Reassembler/Slices.antt =====
-- The arithmetic of cutting a frame into chunks.
use mango_protocol.Common.{
  ℕ, zero, suc, ◌+◌, ◌-◌, ◌*◌, ◌/◌, ◌%◌, ◌^◌, ◌≤◌, ◌<◌, ◌≡◌, refl, ap, List, [], ◌∷◌, ◌++◌, length,
  take, drop, arith,
}
use native.Mathlib.Nat.{div-add-mod, mod-lt}
use mango_protocol.Codec.Chunk.{div_ceil, from_be_bytes}

suc-add : (n m : ℕ) → suc n + m ≡ suc (n + m)
suc-add n m = omega arith

pub take_step :
    {A : Type 0} (a b : ℕ) (xs : List A) → take a xs ++ take b (drop a xs) ≡ take (a + b) xs
take_step zero b xs = ap (λ (n : ℕ). take n xs) (omega arith)
take_step (suc a) zero [] = rw (suc-add a 0)
take_step (suc a) (suc b) [] = rw (suc-add a (suc b))
take_step (suc a) b (x ∷ xs) = rw (suc-add a b) (ap (◌∷◌ x) (take_step a b xs))

pub take_all : {A : Type 0} (xs : List A) → take (length xs) xs ≡ xs
take_all [] = refl
take_all (x ∷ xs) = ap (◌∷◌ x) (take_all xs)

-- `count` chunks of `capacity` bytes hold all `n` bytes, and one fewer does not.
pub ceil_bounds :
    (n capacity : ℕ)
    → 1 ≤ n
    → 1 ≤ capacity
    → (1 ≤ div_ceil n capacity)
      × (n ≤ div_ceil n capacity * capacity)
      × (div_ceil n capacity * capacity < n + capacity)
ceil_bounds n capacity hn hc =
    let whole = div-add-mod (n + (capacity - 1)) capacity in
    let part = mod-lt (n + (capacity - 1)) {m = capacity} hc in
    (grind arith, omega (arith, whole, part), omega (arith, whole, part))

pub be_round_trip :
    (n : ℕ)
    → n < 2 ^ 32
    → from_be_bytes (n / 16777216 % 256) (n / 65536 % 256) (n / 256 % 256) (n % 256) ≡ n
be_round_trip n h = omega arith

pub take_none : {A : Type 0} (n : ℕ) (xs : List A) → n ≡ 0 → take n xs ≡ []
take_none zero xs h = refl
take_none (suc n) xs h = absurd (omega arith)

-- Chunks of at least one byte are no more than the bytes they hold.
pub few_chunks :
    (n capacity count : ℕ) → 1 ≤ count → 1 ≤ capacity → count * capacity < n + capacity → count ≤ n
few_chunks n capacity zero hc hk h = absurd (omega arith)
few_chunks n capacity (suc count) hc hk h = grind arith
