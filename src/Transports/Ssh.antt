-- ===== src/Transports/Ssh.antt =====
-- The argv of a launch over the system `ssh` client and the reading of its exit status:
-- crates/mango-protocol/src/transports/ssh.rs.
pub mod Shell
pub mod Options
pub mod Argv
use mango_protocol.Common.{
  ℕ, Text, List, [], ◌∷◌, ◌++◌, Bool, true, false, ◌||◌, ◌==◌, ltb, if◌then◌else◌, Option, none,
  some, Result, ok, err, ◌>>=◌,
}
use mango_protocol.Libs.{Libs}
use mango_protocol.Wire.Error.{lit}
use mango_protocol.Session.State.{format}
use mango_protocol.Transports.Exit.{
  ExitStatus, is_code, signal_name, is_whitespace, display_int, last_non_empty_line,
}

abbrev pub default_connect_timeout_seconds : ℕ
default_connect_timeout_seconds = 10

abbrev pub port_min : ℕ
port_min = 1

abbrev pub ssh_own_failure : ℕ
ssh_own_failure = 255

abbrev pub command_not_found : ℕ
command_not_found = 127

pub record SshArgv : Type 0 where
  pub host : Text
  pub user : Option Text
  pub port : Option ℕ
  pub identity_file : Option Text
  pub command : List Text
  pub connect_timeout_seconds : ℕ

abbrev pub ssh_argv_options : Text → List Text → SshArgv
ssh_argv_options name words = record {
  host = name;
  user = none;
  port = none;
  identity_file = none;
  command = words;
  connect_timeout_seconds = default_connect_timeout_seconds;
}

abbrev pub with_user : SshArgv → Text → SshArgv
with_user options name = record options { user = some name }

abbrev pub with_port : SshArgv → ℕ → SshArgv
with_port options number = record options { port = some number }

abbrev pub with_identity_file : SshArgv → Text → SshArgv
with_identity_file options identity_file = record options { identity_file = some identity_file }

abbrev pub with_connect_timeout_seconds : SshArgv → ℕ → SshArgv
with_connect_timeout_seconds options seconds = record options { connect_timeout_seconds = seconds }

pub data SshArgvError : Type 0 where
  host user : Text → SshArgvError
  port connect_timeout_seconds : ℕ → SshArgvError
  command : List Text → SshArgvError

unfoldable pub argv_error_reason : SshArgvError → Text
argv_error_reason (SshArgvError.host _) = lit "host"
argv_error_reason (SshArgvError.user _) = lit "user"
argv_error_reason (SshArgvError.port _) = lit "port"
argv_error_reason (SshArgvError.connect_timeout_seconds _) = lit "connectTimeoutSeconds"
argv_error_reason (SshArgvError.command _) = lit "command"

-- `str::is_empty`
abbrev pub is_empty : Text → Bool
is_empty [] = true
is_empty (c ∷ s) = false

-- `str::starts_with` a character
abbrev pub begins_with : ℕ → Text → Bool
begins_with d [] = false
begins_with d (c ∷ s) = c == d

-- `chars().any(char::is_whitespace)`
unfoldable pub any_whitespace : Text → Bool
any_whitespace [] = false
any_whitespace (c ∷ s) = is_whitespace c || any_whitespace s

unfoldable pub checked_host : Text → Result Text SshArgvError
checked_host name =
    if is_empty name || begins_with b'-' name || any_whitespace name
    then err (SshArgvError.host name)
    else ok name

unfoldable pub checked_user : Text → Result Text SshArgvError
checked_user name =
    if is_empty name || begins_with b'-' name || any_whitespace name
    then err (SshArgvError.user name)
    else ok name

unfoldable pub checked_port : ℕ → Result ℕ SshArgvError
checked_port number = if ltb number port_min then err (SshArgvError.port number) else ok number

unfoldable pub checked_timeout : ℕ → Result ℕ SshArgvError
checked_timeout seconds =
    if ltb seconds 1 then err (SshArgvError.connect_timeout_seconds seconds) else ok seconds

unfoldable pub checked_command : List Text → Result (Text × List Text) SshArgvError
checked_command [] = err (SshArgvError.command [])
checked_command (remote_path ∷ rest) =
    if is_empty remote_path
    then err (SshArgvError.command (remote_path ∷ rest))
    else ok (remote_path, rest)

-- `Option::map(check).transpose()?`
abbrev pub transpose {ℓ} :
    {A : Type ℓ} → (A → Result A SshArgvError) → Option A → Result (Option A) SshArgvError
transpose check none = ok none
transpose check (some a) = do a' ← check a; ok (some a')

-- `value.replace('\'', "'\\''")` and a closing quote
unfoldable pub quote_rest : Text → Text
quote_rest [] = 39 ∷ []
quote_rest (c ∷ value) =
    if c == 39 then 39 ∷ 92 ∷ 39 ∷ 39 ∷ quote_rest value else c ∷ quote_rest value

unfoldable pub single_quote : Text → Text
single_quote value = 39 ∷ quote_rest value

-- `strip_prefix("~/")`
unfoldable pub strip_home : Text → Option Text
strip_home [] = none
strip_home (c ∷ []) = none
strip_home (c ∷ d ∷ rest) = if c == 126 then (if d == 47 then some rest else none) else none

unfoldable pub quote_remote_path : Text → Text
unfolding single_quote
quote_remote_path remote_path = elim (strip_home remote_path) [
  | some rest ↦ 126 ∷ 47 ∷ single_quote rest
  | none ↦ single_quote remote_path
]

-- `iter().map(|argument| single_quote(argument))`
unfoldable pub quote_args : List Text → List Text
unfolding single_quote
quote_args [] = []
quote_args (argument ∷ rest) = single_quote argument ∷ quote_args rest

unfoldable pub destination : Option Text → Text → Text
destination none name = name
destination (some account) name = account ++ b'@' ∷ name

-- `-o IdentitiesOnly=yes -i FILE`
unfoldable pub identity_words : Option Text → List Text
identity_words none = []
identity_words (some identity_file) =
    lit "-o" ∷ lit "IdentitiesOnly=yes" ∷ lit "-i" ∷ identity_file ∷ []

module _ ⦃L : Libs⦄ where
  unfoldable pub port_words : Option ℕ → List Text
  port_words none = []
  port_words (some number) = lit "-p" ∷ L.display number ∷ []

  unfoldable pub preset_words : ℕ → List Text
  preset_words connect_timeout =
      lit "ssh"
      ∷ lit "-o"
      ∷ lit "BatchMode=yes"
      ∷ lit "-o"
      ∷ (lit "ConnectTimeout=" ++ L.display connect_timeout)
      ∷ lit "-o"
      ∷ lit "ServerAliveInterval=15"
      ∷ lit "-o"
      ∷ lit "ServerAliveCountMax=3"
      ∷ lit "-o"
      ∷ lit "StrictHostKeyChecking=yes"
      ∷ lit "-o"
      ∷ lit "ControlMaster=no"
      ∷ lit "-o"
      ∷ lit "ControlPath=none"
      ∷ lit "-o"
      ∷ lit "RemoteCommand=none"
      ∷ []

  unfoldable pub ssh_argv : SshArgv → Result (List Text) SshArgvError
  ssh_argv options = do
    checked ← checked_host options.host
    account ← transpose checked_user options.user
    connect_timeout ← checked_timeout options.connect_timeout_seconds
    split ← checked_command options.command
    number ← transpose checked_port options.port
    ok (
        preset_words connect_timeout
        ++ (identity_words options.identity_file
            ++ (port_words number
                ++ lit "-T"
                  ∷ lit "--"
                  ∷ destination account checked
                  ∷ quote_remote_path split.0
                  ∷ quote_args split.1)))

  -- `{command:?}` of a `Vec<String>`
  unfoldable pub debug_rest : List Text → Text
  debug_rest [] = lit "]"
  debug_rest (word ∷ words) = lit ", " ++ (L.debug word ++ debug_rest words)

  unfoldable pub debug_list : List Text → Text
  unfolding debug_rest
  debug_list [] = lit "[]"
  debug_list (word ∷ words) = lit "[" ++ (L.debug word ++ debug_rest words)

  unfoldable pub argv_error_text : SshArgvError → Text
  argv_error_text (SshArgvError.host name) = format (
      lit "ssh host is "
      ∷ L.debug name
      ∷ lit "; expected a non-empty host name without whitespace and not beginning with \"-\""
      ∷ [])
  argv_error_text (SshArgvError.user name) = format (
      lit "ssh user is "
      ∷ L.debug name
      ∷ lit "; expected a non-empty user name without whitespace and not beginning with \"-\""
      ∷ [])
  argv_error_text (SshArgvError.port number) = format (
      lit "ssh port is "
      ∷ L.display number
      ∷ lit "; expected a port of at least "
      ∷ L.display port_min
      ∷ [])
  argv_error_text (SshArgvError.connect_timeout_seconds seconds) = format (
      lit "ssh connectTimeoutSeconds is "
      ∷ L.display seconds
      ∷ lit "; expected an integer of at least 1 second"
      ∷ [])
  argv_error_text (SshArgvError.command words) = format (
      lit "ssh command is "
      ∷ debug_list words
      ∷ lit "; expected [remotePath, ...remoteArgs] with a non-empty remote path"
      ∷ [])

  unfoldable pub failure_detail : Option Text → Text
  failure_detail none = []
  failure_detail (some detail) = lit ": " ++ detail

  unfoldable pub ended_text : ExitStatus → Text
  ended_text status = elim status.signal [
    | some signal ↦
        let name : Text = elim (signal_name signal) [
          | some name ↦ name
          | none ↦ lit "signal " ++ display_int signal
        ] in
        lit "ssh was killed by " ++ (name ++ lit " before the remote command reported a status.")
    | none ↦ elim status.code [
      | none ↦
          lit
            "ssh ended without an exit status, so the launcher could not observe how the remote command finished."
      | some code ↦
          lit "ssh exited "
          ++ (display_int code ++ lit ", which is the status the remote command returned.")
    ]
  ]

  unfoldable pub classify_ssh_exit : ExitStatus → Text → Text
  unfolding ended_text failure_detail
  classify_ssh_exit status stderr_tail =
      if is_code ssh_own_failure status.code
      then lit
          "ssh exited 255, its own failure (connection, authentication or host key), not a status from the remote command"
        ++ (failure_detail (last_non_empty_line stderr_tail) ++ lit ".")
      else if is_code command_not_found status.code
      then lit
          "ssh exited 127: the remote login shell could not find the command; check the remote path and the PATH of a non-interactive shell."
      else ended_text status
