-- ===== src/Examples/Commands.antt =====
-- Command lines and exit statuses.
use mango_protocol.Common.{
  ◌≡◌, refl, ◌↔◌, true, ok, is_ok, Text, List, [], ◌∷◌, ◌++◌, some, none, All,
}
use mango_protocol.Wire.Error.{lit}
use mango_protocol.Transports.Exit.{
  last_non_empty_line, raw_lines, trim, find_non_empty, rev, is_whitespace,
}
use mango_protocol.Transports.Exit.Lines.{IsLast, last_non_empty_line_lem}
use mango_protocol.Transports.Ssh.{
  SshArgv, ssh_argv_options, with_user, with_identity_file, ssh_argv, checked_host, checked_user,
  checked_timeout, checked_command, any_whitespace, quote_remote_path, quote_rest, strip_home,
  quote_args, destination, identity_words, port_words, preset_words,
}
use mango_protocol.Transports.Ssh.Argv.{IsAcceptable, ssh_argv_iff, Launches, ssh_argv-Launches}
use mango_protocol.Examples.{toy_libs}

-- `me@h` with the key `k`, with `~/a 'b` as the path and an argument that is a quote
abbrev options : SshArgv
options =
    with_identity_file
      (with_user
        (ssh_argv_options (104 ∷ []) ((126 ∷ 47 ∷ 97 ∷ 32 ∷ 39 ∷ 98 ∷ []) ∷ (39 ∷ []) ∷ []))
        (109 ∷ 101 ∷ []))
      (107 ∷ [])

ssh_argv_iff_example : (is_ok (ssh_argv ⦃L = toy_libs⦄ options) ≡ true) ↔ IsAcceptable options
ssh_argv_iff_example = ssh_argv_iff options

abbrev argv : List Text
unfolding preset_words
argv =
    preset_words 10
    ++ lit "-o"
      ∷ lit "IdentitiesOnly=yes"
      ∷ lit "-i"
      ∷ (107 ∷ [])
      ∷ lit "-T"
      ∷ lit "--"
      ∷ (109 ∷ 101 ∷ 64 ∷ 104 ∷ [])
      ∷ (126 ∷ 47 ∷ 39 ∷ 97 ∷ 32 ∷ 39 ∷ 92 ∷ 39 ∷ 39 ∷ 98 ∷ 39 ∷ [])
      ∷ (39 ∷ 39 ∷ 92 ∷ 39 ∷ 39 ∷ 39 ∷ [])
      ∷ []

built : ssh_argv ⦃L = toy_libs⦄ options ≡ ok argv
unfolding ssh_argv checked_host checked_user checked_timeout checked_command any_whitespace
    is_whitespace quote_remote_path quote_rest strip_home quote_args destination identity_words
    port_words preset_words
built = refl

ssh_argv-Launches_example : Launches ⦃L = toy_libs⦄ options argv
ssh_argv-Launches_example = ssh_argv-Launches options argv built

-- `a`, a line of blanks, and no end of line
abbrev tail : Text
tail = 97 ∷ 32 ∷ 10 ∷ 32 ∷ []

last_found : last_non_empty_line tail ≡ some (97 ∷ [])
unfolding last_non_empty_line raw_lines find_non_empty rev trim is_whitespace
last_found = refl

last_non_empty_line_lem_example :
    (last_non_empty_line tail ≡ none → All (λ l. trim l ≡ []) (raw_lines tail))
    × ((line : Text) → last_non_empty_line tail ≡ some line → IsLast (raw_lines tail) line)
last_non_empty_line_lem_example = last_non_empty_line_lem tail
