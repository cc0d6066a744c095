-- ===== src/Validate/Names.antt =====
-- Which texts the name tests accept, against the grammars that the documentation states.
use mango_protocol.Common.{
  ℕ, ◌+◌, ◌≤◌, ◌≡◌, refl, ◌≢◌, ◌↔◌, ◌⊎◌, inl, inr, Text, List, [], ◌∷◌, ◌++◌, true, false, ◌==◌,
  length, All, all, arith, Bool-cases, ap, ◌∙◌,
}
use mango_protocol.Validate.Grammar.{
  is_ascii_lowercase, is_segment_char, is_code_char, ends_with, is_valid_segment, split, check_rest,
  check_segments, max_name_chars, max_code_chars, is_valid_method_name, is_valid_role,
  is_valid_error_code,
}

-- The character classes of the patterns, as predicates.
abbrev pub Lower : ℕ → Type 0
Lower c = (97 ≤ c) × (c ≤ 122)

abbrev pub Digit : ℕ → Type 0
Digit c = (48 ≤ c) × (c ≤ 57)

abbrev pub Upper : ℕ → Type 0
Upper c = (65 ≤ c) × (c ≤ 90)

-- `[a-z0-9-]` and `[a-z0-9]`
abbrev pub Inner : ℕ → Type 0
Inner c = Lower c ⊎ (Digit c ⊎ (c ≡ 45))

abbrev pub Last : ℕ → Type 0
Last c = Lower c ⊎ Digit c

-- `[a-z0-9-]*[a-z0-9]`
pub data Tail : Text → Type 0 where
  last : (c : ℕ) → Last c → Tail (c ∷ [])
  more : (c : ℕ) (s : Text) → Inner c → Tail s → Tail (c ∷ s)

-- `[a-z](?:[a-z0-9-]*[a-z0-9])?`
pub data Segment : Text → Type 0 where
  single : (c : ℕ) → Lower c → Segment (c ∷ [])
  longer : (c : ℕ) (s : Text) → Lower c → Tail s → Segment (c ∷ s)

-- `(?:\.SEGMENT)*` after a first segment
abbrev pub join : Text → List Text → Text
join first [] = first
join first (segment ∷ segments) = first ++ 46 ∷ join segment segments

-- The whole of METHOD_NAME_PATTERN: a segment, then one or more, each behind a dot.
pub data MethodName (name : Text) : Type 0 where
  segments :
      (first second : Text) (rest : List Text)
      → Segment first
      → Segment second
      → All Segment rest
      → name ≡ join first (second ∷ rest)
      → MethodName name

Inner-iff : (c : ℕ) → (is_segment_char c ≡ true) ↔ Inner c
Inner-iff c = (λ h. ground arith, λ h. ground arith)

Lower-iff : (c : ℕ) → (is_ascii_lowercase c ≡ true) ↔ Lower c
Lower-iff c = (λ h. ground arith, λ h. ground arith)

digit_or_lower : (c : ℕ) → Inner c → (c == 45) ≡ false → Last c
digit_or_lower c h n = ground arith

-- The characters of a segment after the first, with the test of the last one.
Tail-complete :
    (c : ℕ) (s : Text)
    → Tail (c ∷ s)
    → (ends_with 45 (c ∷ s) ≡ false) × (all is_segment_char (c ∷ s) ≡ true)
unfolding ends_with
Tail-complete c s (last _ l) = (ground arith, ground arith)
Tail-complete c s (more _ (d ∷ t) i rest) = ground (arith, Inner-iff c, Tail-complete d t rest)
Tail-complete c s (more _ [] i rest) = elim rest [ ]

Tail-sound :
    (c : ℕ) (s : Text)
    → ends_with 45 (c ∷ s) ≡ false
    → all is_segment_char (c ∷ s) ≡ true
    → Tail (c ∷ s)
unfolding ends_with
Tail-sound c [] e h = last c (digit_or_lower c ((Inner-iff c).0 (ground arith)) (ground arith))
Tail-sound c (d ∷ s) e h =
    more c (d ∷ s) ((Inner-iff c).0 (ground arith)) (Tail-sound d s e (ground arith))

Segment-sound : (s : Text) → is_valid_segment s ≡ true → Segment s
unfolding is_valid_segment ends_with
Segment-sound [] h = cc
Segment-sound (c ∷ []) h = single c (ground arith)
Segment-sound (c ∷ d ∷ s) h =
    longer c (d ∷ s) (ground arith) (Tail-sound d s (ground arith) (ground arith))

Segment-complete : (s : Text) → Segment s → is_valid_segment s ≡ true
unfolding is_valid_segment ends_with
Segment-complete s (single c l) = ground arith
Segment-complete s (longer c (d ∷ t) l rest) = ground (arith, Tail-complete d t rest)
Segment-complete s (longer c [] l rest) = elim rest [ ]

pub is_valid_segment_iff : (s : Text) → (is_valid_segment s ≡ true) ↔ Segment s
is_valid_segment_iff s = (Segment-sound s, Segment-complete s)

join-cons : (c : ℕ) (first : Text) (rest : List Text) → c ∷ join first rest ≡ join (c ∷ first) rest
join-cons c first [] = refl
join-cons c first (s ∷ rest) = refl

-- Splitting at the dots and joining with dots are inverse to one another.
split_view :
    (s : Text)
    → (first : Text) × (rest : List Text) × (split 46 s ≡ first ∷ rest) × (s ≡ join first rest)
unfolding split
split_view [] = ([], [], refl, refl)
split_view (c ∷ s) =
    let (first, rest, e, j) = split_view s in
    elim (Bool-cases (c == 46)) [
      | inl dot ↦ ([], first ∷ rest, ground (arith), ground arith)
      | inr other ↦ (c ∷ first, rest, ground arith, cc (join-cons c first rest))
    ]

NoDot : Text → Type 0
NoDot s = All (λ c. c ≢ 46) s

Tail-NoDot : (s : Text) → Tail s → All (λ c. c ≢ 46) s
Tail-NoDot s (last c l) = (ground arith, tt)
Tail-NoDot s (more c t i rest) = (ground arith, Tail-NoDot t rest)

Segment-NoDot : (s : Text) → Segment s → All (λ c. c ≢ 46) s
Segment-NoDot s (single c l) = (ground arith, tt)
Segment-NoDot s (longer c t l rest) = (ground arith, Tail-NoDot t rest)

split_plain : (s : Text) → All (λ c. c ≢ 46) s → split 46 s ≡ s ∷ []
unfolding split
split_plain [] h = refl
split_plain (c ∷ s) h = ground (arith, split_plain s h.1)

split_dot : (s t : Text) → All (λ c. c ≢ 46) s → split 46 (s ++ 46 ∷ t) ≡ s ∷ split 46 t
unfolding split
split_dot [] t h = refl
split_dot (c ∷ s) t h = ground (arith, split_dot s t h.1)

split-join :
    (first : Text) (rest : List Text)
    → Segment first
    → All Segment rest
    → split 46 (join first rest) ≡ first ∷ rest
split-join first [] h hs = split_plain first (Segment-NoDot first h)
split-join first (s ∷ rest) h (hs, hr) =
    split_dot first (join s rest) (Segment-NoDot first h) ∙ ap (◌∷◌ first) (split-join s rest hs hr)

check_rest_sound :
    (n : ℕ) (segments : List Text)
    → check_rest n segments ≡ true
    → All Segment segments × (2 ≤ n + length segments)
unfolding check_rest
check_rest_sound n [] h = (tt, ground arith)
check_rest_sound n (s ∷ rest) h =
    let test : is_valid_segment s ≡ true = ground arith in
    let tail = check_rest_sound (n + 1) rest (ground arith) in
    ((Segment-sound s test, tail.0), omega arith)

check_rest_complete :
    (n : ℕ) (segments : List Text)
    → All Segment segments
    → 2 ≤ n + length segments
    → check_rest n segments ≡ true
unfolding check_rest
check_rest_complete n [] h le = ground arith
check_rest_complete n (s ∷ rest) (hs, hr) le =
    ground (arith, Segment-complete s hs, check_rest_complete (n + 1) rest hr)

check_segments_sound :
    (name first : Text) (rest : List Text)
    → name ≡ join first rest
    → check_segments (first ∷ rest) ≡ true
    → MethodName name
unfolding check_segments
check_segments_sound name first [] e h = absurd (ground (arith, check_rest_sound 1 []))
check_segments_sound name first (second ∷ rest) e h =
    let test : is_valid_segment first ≡ true = ground arith in
    let tail = check_rest_sound 1 (second ∷ rest) (ground arith) in
    segments first second rest (Segment-sound first test) tail.0.0 tail.0.1 e

check_segments_complete : (name : Text) → MethodName name → check_segments (split 46 name) ≡ true
unfolding check_segments
check_segments_complete name (segments first second rest hf hs hr e) =
    rw (e, split-join first (second ∷ rest) hf (hs, hr))
      (ground (arith, Segment-complete first hf, check_rest_complete 1 (second ∷ rest) (hs, hr)))

-- `is_valid_method_name` accepts exactly the names of at most 128 characters that match the
-- documented pattern: a segment and one or more further ones behind dots, each a lowercase letter,
-- alone or followed by letters, digits and dashes of which the last is no dash.
pub is_valid_method_name_iff :
    (name : Text)
    → (is_valid_method_name name ≡ true) ↔ ((length name ≤ max_name_chars) × MethodName name)
unfolding is_valid_method_name
is_valid_method_name_iff name =
    let (first, rest, e, j) = split_view name in
    (
      λ h. (ground arith, check_segments_sound name first rest j (ground arith)),
      λ h. ground (arith, check_segments_complete name h.1),
    )

-- `^[A-Z][A-Z0-9_]*$`
abbrev pub ErrorCode : Text → Type 0
ErrorCode [] = ⊥
ErrorCode (c ∷ s) = Upper c × All (λ d. Upper d ⊎ (Digit d ⊎ (d ≡ 95))) s

code_chars_iff :
    (s : Text) → (all is_code_char s ≡ true) ↔ All (λ d. Upper d ⊎ (Digit d ⊎ (d ≡ 95))) s
code_chars_iff [] = (λ h. tt, λ h. refl)
code_chars_iff (d ∷ s) =
    let rest = code_chars_iff s in
    (λ h. (ground arith, rest.0 (ground arith)), λ h. ground (arith, rest.1 h.1))

-- `is_valid_error_code` accepts exactly the texts of at most 64 characters that match
-- `^[A-Z][A-Z0-9_]*$`.
pub is_valid_error_code_iff :
    (code : Text)
    → (is_valid_error_code code ≡ true) ↔ ((length code ≤ max_code_chars) × ErrorCode code)
unfolding is_valid_error_code
is_valid_error_code_iff [] = (λ h. cc, λ h. absurd h.1)
is_valid_error_code_iff (c ∷ s) =
    let rest = code_chars_iff s in
    (λ h. (ground arith, (ground arith, rest.0 (ground arith))), λ h. ground (arith, rest.1 h.1.1))

-- `^[a-z][a-z0-9-]*$`, the pattern that the documentation gives for a role
abbrev pub RolePattern : Text → Type 0
RolePattern [] = ⊥
RolePattern (c ∷ s) = Lower c × All Inner s

chars_iff : (s : Text) → (all is_segment_char s ≡ true) ↔ All Inner s
chars_iff [] = (λ h. tt, λ h. refl)
chars_iff (d ∷ s) =
    let rest = chars_iff s in
    (λ h. (ground arith, rest.0 (ground arith)), λ h. ground (arith, rest.1 h.1))

-- `is_valid_role` accepts exactly the texts of at most 64 characters that match
-- `^[a-z][a-z0-9-]*$` and do not end with a dash; so it refuses a text that matches the documented
-- pattern and ends with a dash.
pub is_valid_role_iff :
    (role : Text)
    → (is_valid_role role ≡ true)
      ↔ ((length role ≤ max_code_chars) × RolePattern role × (ends_with 45 role ≡ false))
unfolding is_valid_role is_valid_segment
is_valid_role_iff [] = (λ h. cc, λ h. absurd h.1)
is_valid_role_iff (c ∷ s) =
    let rest = chars_iff s in
    (
      λ h. (ground arith, (ground arith, rest.0 (ground arith)), ground arith),
      λ h. ground (arith, rest.1 h.1.1),
    )
