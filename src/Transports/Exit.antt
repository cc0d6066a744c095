-- ===== src/Transports/Exit.antt =====
-- How a child process ended: the pure part of crates/mango-protocol/src/transports/spawn.rs.
pub mod Lines
use mango_protocol.Common.{
  ℕ, ◌+◌, Text, List, [], ◌∷◌, ◌++◌, Bool, true, false, ◌||◌, ◌==◌, if◌then◌else◌, in_range, Option,
  none, some,
}
use mango_protocol.Libs.{Libs}
use mango_protocol.Wire.Error.{lit}
use mango_protocol.Validate.Grammar.{push_char}

-- `i32`; `negsuc n` is -(n + 1)
pub data ℤ : Type 0 where
  pos : ℕ → ℤ
  negsuc : ℕ → ℤ

pub record ExitStatus : Type 0 where
  pub code : Option ℤ
  pub signal : Option ℤ

-- The derived `==` of a status with a numeral.
unfoldable pub is_code : ℕ → Option ℤ → Bool
is_code n none = false
is_code n (some (pos m)) = m == n
is_code n (some (negsuc m)) = false

unfoldable pub signal_name : ℤ → Option Text
signal_name (negsuc n) = none
signal_name (pos n) =
    if n == 1
    then some (lit "SIGHUP")
    else if n == 2
    then some (lit "SIGINT")
    else if n == 3
    then some (lit "SIGQUIT")
    else if n == 6
    then some (lit "SIGABRT")
    else if n == 9
    then some (lit "SIGKILL")
    else if n == 13
    then some (lit "SIGPIPE")
    else if n == 15
    then some (lit "SIGTERM")
    else none

-- `char::is_whitespace`: the characters with the Unicode property White_Space
unfoldable pub is_whitespace : ℕ → Bool
is_whitespace c =
    in_range 9 13 c
    || c == 32
    || c == 133
    || c == 160
    || c == 5760
    || in_range 8192 8202 c
    || c == 8232
    || c == 8233
    || c == 8239
    || c == 8287
    || c == 12288

unfoldable pub trim_start : Text → Text
trim_start [] = []
trim_start (c ∷ s) = if is_whitespace c then trim_start s else c ∷ s

-- A character before a text whose end is trimmed: dropped where nothing is left behind it.
unfoldable pub keep_unless_last : ℕ → Text → Text
keep_unless_last c [] = if is_whitespace c then [] else c ∷ []
keep_unless_last c (d ∷ s) = c ∷ d ∷ s

unfoldable pub trim_end : Text → Text
unfolding keep_unless_last
trim_end [] = []
trim_end (c ∷ s) = keep_unless_last c (trim_end s)

-- `str::trim`
unfoldable pub trim : Text → Text
unfolding trim_start trim_end
trim s = trim_end (trim_start s)

-- `str::lines`: `\n` ends a line; but for the `\r` at a line's end, which `trim` takes off as well
unfoldable pub raw_lines : Text → List Text
raw_lines [] = []
raw_lines (c ∷ s) = if c == 10 then [] ∷ raw_lines s else push_char c (raw_lines s)

-- `lines.map(str::trim).find(|line| !line.is_empty())`
unfoldable pub find_non_empty : List Text → Option Text
find_non_empty [] = none
find_non_empty (line ∷ lines) = elim (trim line) [
  | [] ↦ find_non_empty lines
  | c ∷ s ↦ some (c ∷ s)
]

-- `Iterator::rev`
unfoldable pub rev : List Text → List Text → List Text
rev [] acc = acc
rev (line ∷ lines) acc = rev lines (line ∷ acc)

unfoldable pub last_non_empty_line : Text → Option Text
last_non_empty_line text = find_non_empty (rev (raw_lines text) [])

module _ ⦃L : Libs⦄ where
  -- `{}` of an `i32`
  unfoldable pub display_int : ℤ → Text
  display_int (pos n) = L.display n
  display_int (negsuc n) = lit "-" ++ L.display (n + 1)

  -- The signal of a status without a code.
  unfoldable pub killed_by : ℤ → Text
  killed_by signal = elim (signal_name signal) [
    | some name ↦ lit "killed by " ++ name
    | none ↦ lit "killed by signal " ++ display_int signal
  ]

  -- `impl Display for ExitStatus`
  unfoldable pub exit_status_text : Option ℤ → Option ℤ → Text
  exit_status_text (some code) signal = lit "exit status " ++ display_int code
  exit_status_text none (some signal) = killed_by signal
  exit_status_text none none = lit "no exit status at all"
