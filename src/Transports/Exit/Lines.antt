-- ===== src/Transports/Exit/Lines.antt =====
-- Which line `last_non_empty_line` gives.
use mango_protocol.Common.{
  ◌≡◌, refl, ◌≢◌, ◌∙◌, Text, List, [], ◌∷◌, ◌++◌, Option, none, some, Option-cases, inl, inr, ◌⊎◌,
  All, arith, ℕ,
}
use mango_protocol.Transports.Exit.{trim, raw_lines, find_non_empty, rev, last_non_empty_line}

abbrev pub Blank : Text → Type 0
Blank line = trim line ≡ []

-- The lines up to the last one that is not blank, this one, and the blank ones behind it.
pub record IsLast (lines : List Text) (line : Text) : Type 0 where
  pub before : List Text
  pub raw : Text
  pub after : List Text
  pub parts : lines ≡ before ++ raw ∷ after
  pub trimmed : trim raw ≡ line
  pub filled : line ≢ []
  pub blank : All (λ l. trim l ≡ []) after

or_else : Option Text → Option Text → Option Text
or_else none o = o
or_else (some x) o = some x

last_of : List Text → Option Text
last_of [] = none
last_of (line ∷ lines) = or_else (last_of lines) (find_non_empty (line ∷ []))

text_cases : (t : Text) → (t ≡ []) ⊎ ((c : ℕ) × (s : Text) × (t ≡ c ∷ s))
text_cases [] = inl refl
text_cases (c ∷ s) = inr (c, s, refl)

find_first :
    (line : Text) (lines : List Text)
    → find_non_empty (line ∷ lines) ≡ or_else (find_non_empty (line ∷ [])) (find_non_empty lines)
unfolding find_non_empty or_else
find_first line lines = elim (text_cases (trim line)) [
  | inl e ↦ rw (e, find_non_empty) refl
  | inr (c, s, e) ↦ rw (e, find_non_empty) refl
]

or_else_assoc : (a b c : Option Text) → or_else a (or_else b c) ≡ or_else (or_else a b) c
unfolding or_else
or_else_assoc none b c = refl
or_else_assoc (some x) b c = refl

find-rev :
    (lines acc : List Text)
    → find_non_empty (rev lines acc) ≡ or_else (last_of lines) (find_non_empty acc)
unfolding rev last_of or_else
find-rev [] acc = refl
find-rev (line ∷ lines) acc =
    rw (find-rev lines (line ∷ acc), find_first line acc)
      (or_else_assoc (last_of lines) (find_non_empty (line ∷ [])) (find_non_empty acc))

or_else-none : (a : Option Text) → or_else a none ≡ a
unfolding or_else
or_else-none none = refl
or_else-none (some x) = refl

-- What one line comes to.
one_line_at :
    (line t : Text)
    → trim line ≡ t
    → ((trim line ≡ []) × (find_non_empty (line ∷ []) ≡ none))
      ⊎ ((trim line ≢ []) × (find_non_empty (line ∷ []) ≡ some (trim line)))
unfolding find_non_empty
one_line_at line [] e = inl (e, rw (e, find_non_empty) refl)
one_line_at line (c ∷ s) e = inr (λ n. cc, rw (e, find_non_empty) refl)

one_line :
    (line : Text)
    → ((trim line ≡ []) × (find_non_empty (line ∷ []) ≡ none))
      ⊎ ((trim line ≢ []) × (find_non_empty (line ∷ []) ≡ some (trim line)))
one_line line = one_line_at line (trim line) refl

last_of-none : (lines : List Text) → last_of lines ≡ none → All (λ l. trim l ≡ []) lines
unfolding last_of or_else
last_of-none [] h = tt
last_of-none (line ∷ lines) h = elim (Option-cases (last_of lines)) [
  | inr (x, e) ↦ absurd (ground (arith, e))
  | inl e ↦ elim (one_line line) [
    | inl (b, f) ↦ (b, last_of-none lines e)
    | inr (b, f) ↦ absurd (ground (arith, e, f))
  ]
]

last_of-IsLast : (lines : List Text) (x : Text) → last_of lines ≡ some x → IsLast lines x
unfolding last_of or_else
last_of-IsLast [] x h = absurd cc
last_of-IsLast (line ∷ lines) x h = elim (Option-cases (last_of lines)) [
  | inr (y, e) ↦
      let l : IsLast lines x = last_of-IsLast lines x (ground (arith, e)) in
      record {
        before = line ∷ l.before;
        raw = l.raw;
        after = l.after;
        parts = rw (l.parts) refl;
        trimmed = l.trimmed;
        filled = l.filled;
        blank = l.blank;
      }
  | inl e ↦ elim (one_line line) [
    | inl (b, f) ↦ absurd (ground (arith, e, f))
    | inr (b, f) ↦
        let same : trim line ≡ x = ground (arith, e, f) in
        record {
          before = [];
          raw = line;
          after = lines;
          parts = refl;
          trimmed = same;
          filled = λ n. b (same ∙ n);
          blank = last_of-none lines e;
        }
  ]
]

last_non_empty_line-last_of : (text : Text) → last_non_empty_line text ≡ last_of (raw_lines text)
unfolding last_non_empty_line find_non_empty
last_non_empty_line-last_of text =
    find-rev (raw_lines text) [] ∙ or_else-none (last_of (raw_lines text))

-- `last_non_empty_line` gives a line of the text, trimmed and not empty, behind which all lines are
-- blank; where it gives none, all lines of the text are blank.
pub last_non_empty_line_lem :
    (text : Text)
    → (last_non_empty_line text ≡ none → All (λ l. trim l ≡ []) (raw_lines text))
      × ((line : Text) → last_non_empty_line text ≡ some line → IsLast (raw_lines text) line)
last_non_empty_line_lem text =
    rw (last_non_empty_line-last_of text)
      (last_of-none (raw_lines text), last_of-IsLast (raw_lines text))
