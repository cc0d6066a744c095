-- ===== src/Transports/Ssh/Shell.antt =====
-- A POSIX shell's reading of a command line, and what it makes of the quoted words.
use mango_protocol.Common.{
  ℕ, Text, List, [], ◌∷◌, ◌++◌, map, append-nil, ◌≡◌, refl, ap, ◌∙◌, ◌==◌, if◌then◌else◌, Option,
  none, some, Option-cases, Bool-cases, ==_iff, inl, inr, ◌||◌,
}
use mango_protocol.Transports.Ssh.{
  quote_rest, single_quote, strip_home, quote_remote_path, quote_args,
}

-- A character of a word: one that the shell may still expand, or a literal one.
pub data ShellChar : Type 0 where
  plain literal : ℕ → ShellChar

abbrev pub Word : Type 0
Word = List ShellChar

-- Where the reader stands: between two words, in a word, within single quotes, behind a backslash.
pub data Mode : Type 0 where
  between in_word in_quotes escaped : Mode

-- A character in front of the word that the reader has begun.
unfoldable pub onto : ShellChar → Option (List Word) → Option (List Word)
onto c none = none
onto c (some []) = some ((c ∷ []) ∷ [])
onto c (some (word ∷ words)) = some ((c ∷ word) ∷ words)

-- A word that ends before the others.
unfoldable pub ended : Option (List Word) → Option (List Word)
ended none = none
ended (some words) = some ([] ∷ words)

-- The words of a command line, from a mode; in the modes other than `between` the first one is the
-- rest of the word that has begun. `none` is an open quote or a backslash at the end.
unfoldable pub read_words : Mode → Text → Option (List Word)
unfolding onto ended
read_words between [] = some []
read_words in_word [] = some ([] ∷ [])
read_words in_quotes [] = none
read_words escaped [] = none
read_words between (c ∷ s) =
    let blank = read_words between s in
    let quoted = read_words in_quotes s in
    let escape = read_words escaped s in
    let word = onto (plain c) (read_words in_word s) in
    if c == 32 || c == 9
    then blank
    else if c == 39
    then quoted
    else if c == 92
    then escape
    else word
read_words in_word (c ∷ s) =
    let blank = ended (read_words between s) in
    let quoted = read_words in_quotes s in
    let escape = read_words escaped s in
    let word = onto (plain c) (read_words in_word s) in
    if c == 32 || c == 9
    then blank
    else if c == 39
    then quoted
    else if c == 92
    then escape
    else word
read_words in_quotes (c ∷ s) =
    let closed = read_words in_word s in
    let word = onto (literal c) (read_words in_quotes s) in if c == 39 then closed else word
read_words escaped (c ∷ s) = onto (literal c) (read_words in_word s)

-- How `ssh` joins the words behind the destination.
unfoldable pub spaced : List Text → Text
spaced [] = []
spaced (word ∷ words) = 32 ∷ word ++ spaced words

unfoldable pub join_spaces : List Text → Text
unfolding spaced
join_spaces [] = []
join_spaces (word ∷ words) = word ++ spaced words

-- A text of which the shell expands nothing.
abbrev pub literally : Text → Word
literally value = map literal value

-- A remote path: only a leading `~/` is left to the shell.
unfoldable pub path_word : Text → Word
path_word path = elim (strip_home path) [
  | some rest ↦ plain 126 ∷ plain 47 ∷ literally rest
  | none ↦ literally path
]

-- What the reader makes of a word in front of the rest of the line.
before : Word → Option (List Word) → Option (List Word)
before [] o = o
before (c ∷ word) o = onto c (before word o)

quoted_lem :
    (value s : Text)
    → read_words in_quotes (quote_rest value ++ s) ≡ before (literally value) (read_words in_word s)
unfolding read_words quote_rest before
quoted_lem [] s = refl
quoted_lem (c ∷ value) s = elim (Bool-cases (c == 39)) [
  | inl quote ↦
      let e : c ≡ 39 = (==_iff c 39).0 quote in rw e (ap (onto (literal 39)) (quoted_lem value s))
  | inr other ↦ rw (other, read_words) (rw other (ap (onto (literal c)) (quoted_lem value s)))
]

before-some :
    (word rest : Word) (words : List Word)
    → before word (some (rest ∷ words)) ≡ some ((word ++ rest) ∷ words)
unfolding before onto
before-some [] rest words = refl
before-some (c ∷ word) rest words = ap (onto c) (before-some word rest words)

-- A quoted text in front of the others of a line.
module _ (value s : Text) (words : List Word)
    (rest : read_words in_word s ≡ some ([] ∷ words)) where
  quoted_word : read_words in_quotes (quote_rest value ++ s) ≡ some (literally value ∷ words)
  quoted_word =
      quoted_lem value s
      ∙ (ap (before (literally value)) rest
          ∙ (before-some (literally value) [] words
              ∙ ap (λ (w : Word). some (w ∷ words)) (append-nil (literally value))))

quoted_words :
    (args : List Text)
    → read_words in_word (spaced (quote_args args)) ≡ some ([] ∷ map literally args)
unfolding read_words quote_args spaced single_quote ended
quoted_words [] = refl
quoted_words (a ∷ args) =
    ap ended (quoted_word a (spaced (quote_args args)) (map literally args) (quoted_words args))

-- The shell reads the remote path and its arguments back from the line that the quoted words make,
-- each as one word, and is left to expand nothing but a leading `~/` of the path.
pub read_words-quote_remote_path :
    (path : Text) (args : List Text)
    → read_words between (join_spaces (quote_remote_path path ∷ quote_args args))
      ≡ some (path_word path ∷ map literally args)
unfolding read_words join_spaces quote_remote_path path_word single_quote onto
read_words-quote_remote_path path args = elim (Option-cases (strip_home path)) [
  | inl e ↦
      rw (e, quote_remote_path)
        (rw (e, path_word)
          (quoted_word path (spaced (quote_args args)) (map literally args) (quoted_words args)))
  | inr (rest, e) ↦
      rw (e, quote_remote_path)
        (rw (e, path_word)
          (ap (λ o. onto (plain 126) (onto (plain 47) o))
            (quoted_word rest (spaced (quote_args args)) (map literally args) (quoted_words args))))
]
