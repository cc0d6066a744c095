-- ===== src/Transports/Ssh/Argv.antt =====
-- Which options `ssh_argv` turns into a command line, and what that line runs.
use mango_protocol.Common.{
  ℕ, ◌≤◌, ◌≡◌, refl, ap, ◌≢◌, ◌↔◌, Text, List, [], ◌∷◌, ◌++◌, map, append_assoc, true, false, ◌||◌,
  Option, none, some, Result, ok, is_ok, Result-cases, inl, inr, All, All-append, arith, ◌∙◌,
}
use mango_protocol.Libs.{Libs}
use mango_protocol.Wire.Error.{lit}
use mango_protocol.Transports.Exit.{is_whitespace}
use mango_protocol.Transports.Ssh.{
  SshArgv, SshArgvError, is_empty, begins_with, any_whitespace, checked_host, checked_user,
  checked_port, checked_timeout, checked_command, transpose, quote_remote_path, quote_args,
  destination, identity_words, port_words, preset_words, ssh_argv,
}
use mango_protocol.Transports.Ssh.Options.{
  Told, told_of, preset_options, preset_program, front-Told,
}
use mango_protocol.Transports.Ssh.Shell.{
  between, read_words, join_spaces, literally, path_word, read_words-quote_remote_path,
}

-- A name that `ssh` reads as one argument and not as an option.
abbrev pub IsArgument : Text → Type 0
IsArgument [] = ⊥
IsArgument (c ∷ s) = (c ≢ 45) × All (λ d. is_whitespace d ≡ false) (c ∷ s)

abbrev pub Each {ℓ} : {A : Type ℓ} → (A → Type 0) → Option A → Type 0
Each P none = Unit {0}
Each P (some a) = P a

abbrev pub Runs : List Text → Type 0
Runs [] = ⊥
Runs (path ∷ args) = path ≢ []

pub record IsAcceptable (options : SshArgv) : Type 0 where
  pub host : IsArgument options.host
  pub user : Each IsArgument options.user
  pub timeout : 1 ≤ options.connect_timeout_seconds
  pub command : Runs options.command
  pub port : Each (λ n. 1 ≤ n) options.port

any_whitespace_iff : (s : Text) → (any_whitespace s ≡ false) ↔ All (λ d. is_whitespace d ≡ false) s
unfolding any_whitespace
any_whitespace_iff [] = (λ h. tt, λ h. refl)
any_whitespace_iff (c ∷ s) =
    let rest = any_whitespace_iff s in
    (λ h. (ground arith, rest.0 (ground arith)), λ h. ground (arith, rest.1 h.1))

IsArgument-iff :
    (s : Text) → ((is_empty s || begins_with 45 s || any_whitespace s) ≡ false) ↔ IsArgument s
IsArgument-iff [] = (λ h. cc, λ h. absurd h)
IsArgument-iff (c ∷ s) =
    let rest = any_whitespace_iff (c ∷ s) in
    (λ h. (ground arith, rest.0 (ground arith)), λ h. ground (arith, rest.1 h.1))

checked_host_iff : (s : Text) → (checked_host s ≡ ok s) ↔ IsArgument s
unfolding checked_host
checked_host_iff s =
    let i = IsArgument-iff s in (λ h. i.0 (ground arith), λ h. ground (arith, i.1 h))

checked_user_iff : (s : Text) → (checked_user s ≡ ok s) ↔ IsArgument s
unfolding checked_user
checked_user_iff s =
    let i = IsArgument-iff s in (λ h. i.0 (ground arith), λ h. ground (arith, i.1 h))

host_same : (s t : Text) → checked_host s ≡ ok t → t ≡ s
unfolding checked_host
host_same s t h = ground arith

user_same : (s t : Text) → checked_user s ≡ ok t → t ≡ s
unfolding checked_user
user_same s t h = ground arith

port_same : (s t : ℕ) → checked_port s ≡ ok t → (t ≡ s) × (1 ≤ s)
unfolding checked_port
port_same s t h = (ground arith, ground arith)

-- An optional value that passes its check unchanged.
module _ {ℓ} {A : Type ℓ} (check : A → Result A SshArgvError) where
  abbrev Keeps : Type ℓ
  Keeps = (a b : A) → check a ≡ ok b → b ≡ a

  transpose_same : Keeps → (o p : Option A) → transpose check o ≡ ok p → p ≡ o
  transpose_same keeps none p h = ground arith
  transpose_same keeps (some a) p h = elim (Result-cases (check a)) [
    | inl (b, e) ↦ ground (arith, e, keeps a b e)
    | inr (x, e) ↦ absurd (ground (arith, e))
  ]

  transpose_passes :
      (P : A → Type 0)
      → ((a b : A) → check a ≡ ok b → P a)
      → (o p : Option A) → transpose check o ≡ ok p
      → Each P o
  transpose_passes P passes none p h = tt
  transpose_passes P passes (some a) p h = elim (Result-cases (check a)) [
    | inl (b, e) ↦ passes a b e
    | inr (x, e) ↦ absurd (ground (arith, e))
  ]

  transpose_ok :
      (P : A → Type 0)
      → ((a : A) → P a → check a ≡ ok a)
      → (o : Option A) → Each P o
      → transpose check o ≡ ok o
  transpose_ok P back none h = refl
  transpose_ok P back (some a) h = rw (back a h) refl

checked_command_ok :
    (words : List Text) (path : Text) (args : List Text)
    → checked_command words ≡ ok (path, args)
    → (words ≡ path ∷ args) × Runs words
unfolding checked_command
checked_command_ok [] path args h = absurd cc
checked_command_ok ([] ∷ rest) path args h = absurd cc
checked_command_ok ((c ∷ s) ∷ rest) path args h = (cc, λ e. cc)

checked_command-Runs :
    (words : List Text)
    → Runs words
    → (path : Text) × (args : List Text) × (words ≡ path ∷ args)
      × (checked_command words ≡ ok (path, args))
unfolding checked_command
checked_command-Runs [] h = absurd h
checked_command-Runs ([] ∷ rest) h = absurd (h refl)
checked_command-Runs ((c ∷ s) ∷ rest) h = (c ∷ s, rest, refl, refl)

checked_timeout_ok : (n m : ℕ) → checked_timeout n ≡ ok m → (1 ≤ n) × (m ≡ n)
unfolding checked_timeout
checked_timeout_ok n m h = (ground arith, ground arith)

checked_timeout_back : (n : ℕ) → 1 ≤ n → checked_timeout n ≡ ok n
unfolding checked_timeout
checked_timeout_back n h = ground arith

checked_port_back : (n : ℕ) → 1 ≤ n → checked_port n ≡ ok n
unfolding checked_port
checked_port_back n h = ground arith

append-IsArgument : (s t : Text) → IsArgument s → IsArgument t → IsArgument (s ++ 64 ∷ t)
unfolding is_whitespace
append-IsArgument [] t h k = absurd h
append-IsArgument (c ∷ s) (d ∷ t) h k =
    (h.0, (h.1.0, All-append (λ x. is_whitespace x ≡ false) s (64 ∷ d ∷ t) h.1.1 (refl, k.1)))
append-IsArgument (c ∷ s) [] h k = absurd k

destination-IsArgument :
    (user : Option Text) (host : Text)
    → Each IsArgument user
    → IsArgument host
    → IsArgument (destination user host)
unfolding destination
destination-IsArgument none host u h = h
destination-IsArgument (some user) host u h = append-IsArgument user host u h

module _ ⦃L : Libs⦄ where
  -- What `ssh` is told: options with their values, then `--`, a destination that is no option, and
  -- words from which the shell of the target gets the path and the arguments back.
  pub record Launches (options : SshArgv) (argv : List Text) : Type 0 where
    pub front : List Text
    pub words : List Text
    pub path : Text
    pub args : List Text
    pub command : options.command ≡ path ∷ args
    pub parts :
        argv ≡ lit "ssh" ∷ (front ++ lit "--" ∷ destination options.user options.host ∷ words)
    pub told : Told front (told_of options)
    pub safe : IsArgument (destination options.user options.host)
    pub read : read_words between (join_spaces words) ≡ some (path_word path ∷ map literally args)

  regroup :
      (a b c : List Text) (t : Text) (rest : List Text)
      → a ++ (b ++ (c ++ t ∷ rest)) ≡ (a ++ (b ++ (c ++ t ∷ []))) ++ rest
  regroup a b c t rest = simp (append_assoc)

  -- The argv of options that passed every check.
  argv_of : (options : SshArgv) → Text → List Text → List Text
  argv_of options path args =
      preset_words options.connect_timeout_seconds
      ++ (identity_words options.identity_file
          ++ (port_words options.port
              ++ lit "-T"
                ∷ lit "--"
                ∷ destination options.user options.host
                ∷ quote_remote_path path
                ∷ quote_args args))

  record Checked (options : SshArgv) (argv : List Text) : Type 0 where
    acceptable : IsAcceptable options
    path : Text
    args : List Text
    command : options.command ≡ path ∷ args
    same : argv ≡ argv_of options path args

  ssh_argv-Checked :
      (options : SshArgv) (argv : List Text) → ssh_argv options ≡ ok argv → Checked options argv
  unfolding ssh_argv argv_of
  ssh_argv-Checked options argv h = elim (Result-cases (checked_host options.host)) [
    | inr (x, e) ↦ absurd (ground (arith, e))
    | inl (host, e1) ↦ elim (Result-cases (transpose checked_user options.user)) [
      | inr (x, e) ↦ absurd (ground (arith, e1, e))
      | inl (user, e2) ↦ elim (Result-cases (checked_timeout options.connect_timeout_seconds)) [
        | inr (x, e) ↦ absurd (ground (arith, e1, e2, e))
        | inl (timeout, e3) ↦ elim (Result-cases (checked_command options.command)) [
          | inr (x, e) ↦ absurd (ground (arith, e1, e2, e3, e))
          | inl ((path, args), e4) ↦ elim (Result-cases (transpose checked_port options.port)) [
            | inr (x, e) ↦ absurd (ground (arith, e1, e2, e3, e4, e))
            | inl (port, e5) ↦
                let h1 = host_same options.host host e1 in
                let h2 = transpose_same checked_user user_same options.user user e2 in
                let h3 = checked_timeout_ok options.connect_timeout_seconds timeout e3 in
                let h4 = checked_command_ok options.command path args e4 in
                let h5 =
                  transpose_same checked_port (λ a b k. (port_same a b k).0) options.port port e5 in
                record {
                  acceptable = record {
                    host = (checked_host_iff options.host).0 (ground (arith, e1, h1));
                    user =
                        transpose_passes checked_user IsArgument
                          (λ a b k. (checked_user_iff a).0 (ground (arith, k, user_same a b k)))
                          options.user user e2;
                    timeout = h3.0;
                    command = h4.1;
                    port =
                        transpose_passes checked_port (λ n. 1 ≤ n) (λ a b k. (port_same a b k).1)
                          options.port port e5;
                  };
                  path = path;
                  args = args;
                  command = h4.0;
                  same = ground (arith, e1, e2, e3, e4, e5, h1, h2, h3, h5);
                }
          ]
        ]
      ]
    ]
  ]

  acceptable_ok : (options : SshArgv) → IsAcceptable options → is_ok (ssh_argv options) ≡ true
  unfolding ssh_argv
  acceptable_ok options a =
      let (path, args, e, c) = checked_command-Runs options.command a.command in
      rw
        (
          (checked_host_iff options.host).1 a.host,
          transpose_ok checked_user IsArgument (λ s. (checked_user_iff s).1) options.user a.user,
          checked_timeout_back options.connect_timeout_seconds a.timeout,
          c,
          transpose_ok checked_port (λ n. 1 ≤ n) checked_port_back options.port a.port,
        )
        refl

  -- `ssh_argv` makes a command line exactly of options whose host and user (where one is given) are
  -- not empty, hold no whitespace and do not begin with a dash, whose timeout and port (where one is
  -- given) are at least 1, and whose command begins with a path that is not empty.
  pub ssh_argv_iff : (options : SshArgv) → (is_ok (ssh_argv options) ≡ true) ↔ IsAcceptable options
  ssh_argv_iff options = (
    λ h. elim (Result-cases (ssh_argv options)) [
      | inl (argv, e) ↦ (ssh_argv-Checked options argv e).acceptable
      | inr (x, e) ↦ absurd (ground (arith, e))
    ],
    acceptable_ok options,
  )

  -- The argv that `ssh_argv` makes is `ssh`, then options, each a letter behind a dash and, for `-o`,
  -- `-i` and `-p`, its value: the presets of the launcher with the timeout, the key with no other and
  -- the port where they are given, and `-T`. Then comes `--`, then the host or the user and the host
  -- joined by `@`, which do not begin with a dash and hold no whitespace, and then words. Of these
  -- words, joined by spaces, a POSIX shell makes the remote path and its arguments, each one word,
  -- and there is nothing that it expands but a leading `~/` of the path.
  pub ssh_argv-Launches :
      (options : SshArgv) (argv : List Text) → ssh_argv options ≡ ok argv → Launches options argv
  unfolding argv_of
  ssh_argv-Launches options argv h =
      let c = ssh_argv-Checked options argv h in
      record {
        front =
            preset_options options.connect_timeout_seconds
            ++ (identity_words options.identity_file ++ (port_words options.port ++ lit "-T" ∷ []));
        words = quote_remote_path c.path ∷ quote_args c.args;
        path = c.path;
        args = c.args;
        command = c.command;
        parts =
            c.same
            ∙ (ap
                  (λ (preset : List Text).
                    preset
                    ++ (identity_words options.identity_file
                        ++ (port_words options.port
                            ++ lit "-T"
                              ∷ lit "--"
                              ∷ destination options.user options.host
                              ∷ quote_remote_path c.path
                              ∷ quote_args c.args)))
                  (preset_program options.connect_timeout_seconds)
                ∙ ap (◌∷◌ (lit "ssh")) (
                    regroup (preset_options options.connect_timeout_seconds)
                      (identity_words options.identity_file) (port_words options.port) (lit "-T")
                      _));
        told = front-Told options;
        safe = destination-IsArgument options.user options.host c.acceptable.user c.acceptable.host;
        read = read_words-quote_remote_path c.path c.args;
      }
