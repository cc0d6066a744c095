-- ===== src/Codec/Decoder/Lines.antt =====
-- How `take_line` and the stripping of `\r` behave when bytes are added behind.
use mango_protocol.Common.{
  ◌+◌, ◌≤◌, ◌<◌, ◌≡◌, Bytes, [], ◌∷◌, ◌++◌, Option, none, some, ◌==◌, length, length-append,
  Bool-cases, Option-cases, inl, inr, arith, append-nil,
}
use mango_protocol.Codec.Ndjson.{strip_carriage_return}
use mango_protocol.Codec.Decoder.{take_line}

pub take_line-append :
    (a b line rest : Bytes)
    → take_line a ≡ some (line, rest)
    → take_line (a ++ b) ≡ some (line, rest ++ b)
unfolding take_line
take_line-append [] b line rest e = cc
take_line-append (x ∷ a) b line rest e = elim (Bool-cases (x == 10)) [
  | inl newline ↦ ground arith
  | inr other ↦ elim (Option-cases (take_line a)) [
    | inl n ↦ ground arith
    | inr (p, s) ↦ ground (arith, take_line-append a b p.0 p.1)
  ]
]

-- A line that has not ended goes on in the bytes that follow.
abbrev pub prepend : Bytes → Option (Bytes × Bytes) → Option (Bytes × Bytes)
prepend a none = none
prepend a (some (line, rest)) = some (a ++ line, rest)

pub take_line-append_none :
    (a b : Bytes) → take_line a ≡ none → take_line (a ++ b) ≡ prepend a (take_line b)
unfolding take_line
take_line-append_none [] b e = elim (Option-cases (take_line b)) [
  | inl n ↦ rw n
  | inr (p, s) ↦ rw s
]
take_line-append_none (x ∷ a) b e = elim (Option-cases (take_line a)) [
  | inl n ↦ elim (Option-cases (take_line b)) [
    | inl m ↦ ground (arith, take_line-append_none a b n)
    | inr (p, s) ↦ ground (arith, take_line-append_none a b n)
  ]
  | inr (p, s) ↦ absurd (ground arith)
]

pub take_line_shorter :
    (a line rest : Bytes) → take_line a ≡ some (line, rest) → length rest < length a
unfolding take_line
take_line_shorter [] line rest e = cc
take_line_shorter (x ∷ a) line rest e = elim (Option-cases (take_line a)) [
  | inl n ↦ ground arith
  | inr (p, s) ↦ ground (arith, take_line_shorter a p.0 p.1)
]

pub strip_bounds :
    (a : Bytes)
    → (length (strip_carriage_return a) ≤ length a)
      × (length a ≤ length (strip_carriage_return a) + 1)
unfolding strip_carriage_return
strip_bounds [] = omega arith
strip_bounds (x ∷ []) = ground arith
strip_bounds (x ∷ y ∷ a) = let ih = strip_bounds (y ∷ a) in omega arith

-- More bytes never make a record shorter.
pub strip-append-le :
    (a b : Bytes) → length (strip_carriage_return a) ≤ length (strip_carriage_return (a ++ b))
strip-append-le a [] = rw append-nil (omega arith)
strip-append-le a (x ∷ b) =
    omega (arith, strip_bounds a, strip_bounds (a ++ x ∷ b), length-append a (x ∷ b))
