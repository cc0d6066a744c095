-- ===== src/Transports/Ssh/Options.antt =====
-- How `ssh` reads the options in front of a `--`, and what those of `ssh_argv` tell it.
use mango_protocol.Common.{
  ℕ, ◌≡◌, refl, Text, List, [], ◌∷◌, ◌++◌, Option, none, some, ◌⊎◌, inl, inr,
}
use mango_protocol.Libs.{Libs}
use mango_protocol.Wire.Error.{lit}
use mango_protocol.Transports.Ssh.{SshArgv, identity_words, port_words, preset_words}

-- The options that take the next word as their value: `-o`, `-i` and `-p`.
abbrev pub TakesValue : ℕ → Type 0
TakesValue letter = (letter ≡ b'o') ⊎ ((letter ≡ b'i') ⊎ (letter ≡ b'p'))

-- The words are options, each a dash and its letter, with the value of those that take one.
pub data Told : List Text → List (ℕ × Text) → Type 0 where
  done : Told [] []
  alone :
      (words : List Text) (told : List (ℕ × Text))
      → Told words told
      → Told ((45 ∷ b'T' ∷ []) ∷ words) ((b'T', []) ∷ told)
  valued :
      (letter : ℕ) (value : Text) (words : List Text) (told : List (ℕ × Text))
      → TakesValue letter
      → Told words told
      → Told ((45 ∷ letter ∷ []) ∷ value ∷ words) ((letter, value) ∷ told)

Told-append :
    {a b : List Text} {s t : List (ℕ × Text)} → Told a s → Told b t → Told (a ++ b) (s ++ t)
Told-append done h = h
Told-append (alone words told g) h = alone _ _ (Told-append g h)
Told-append (valued letter value words told k g) h = valued letter value _ _ k (Told-append g h)

setting :
    (value : Text) {words : List Text} {told : List (ℕ × Text)}
    → Told words told
    → Told ((45 ∷ b'o' ∷ []) ∷ value ∷ words) ((b'o', value) ∷ told)
setting value h = valued b'o' value _ _ (inl refl) h

-- A key to use, and no other.
abbrev pub identity_told : Option Text → List (ℕ × Text)
identity_told none = []
identity_told (some file) = (b'o', lit "IdentitiesOnly=yes") ∷ (b'i', file) ∷ []

identity-Told : (file : Option Text) → Told (identity_words file) (identity_told file)
unfolding identity_words lit
identity-Told none = done
identity-Told (some file) =
    setting (lit "IdentitiesOnly=yes") (valued b'i' file [] [] (inr (inl refl)) done)

module _ ⦃L : Libs⦄ where
  abbrev pub port_told : Option ℕ → List (ℕ × Text)
  port_told none = []
  port_told (some number) = (b'p', L.display number) ∷ []

  port-Told : (number : Option ℕ) → Told (port_words number) (port_told number)
  unfolding port_words lit
  port-Told none = done
  port-Told (some number) = valued b'p' (L.display number) [] [] (inr (inr refl)) done

  abbrev pub preset_told : ℕ → List (ℕ × Text)
  preset_told connect_timeout =
      (b'o', lit "BatchMode=yes")
      ∷ (b'o', lit "ConnectTimeout=" ++ L.display connect_timeout)
      ∷ (b'o', lit "ServerAliveInterval=15")
      ∷ (b'o', lit "ServerAliveCountMax=3")
      ∷ (b'o', lit "StrictHostKeyChecking=yes")
      ∷ (b'o', lit "ControlMaster=no")
      ∷ (b'o', lit "ControlPath=none")
      ∷ (b'o', lit "RemoteCommand=none")
      ∷ []

  -- What the options of an argv tell `ssh`: no question to the user, no shared connection and no
  -- other command, the key and the port that are given, and no terminal.
  abbrev pub told_of : SshArgv → List (ℕ × Text)
  told_of options =
      preset_told options.connect_timeout_seconds
      ++ (identity_told options.identity_file ++ (port_told options.port ++ (b'T', []) ∷ []))

  -- The options of an argv, behind the name of the program.
  abbrev pub preset_options : ℕ → List Text
  preset_options connect_timeout =
      lit "-o"
      ∷ lit "BatchMode=yes"
      ∷ lit "-o"
      ∷ (lit "ConnectTimeout=" ++ L.display connect_timeout)
      ∷ lit "-o"
      ∷ lit "ServerAliveInterval=15"
      ∷ lit "-o"
      ∷ lit "ServerAliveCountMax=3"
      ∷ lit "-o"
      ∷ lit "StrictHostKeyChecking=yes"
      ∷ lit "-o"
      ∷ lit "ControlMaster=no"
      ∷ lit "-o"
      ∷ lit "ControlPath=none"
      ∷ lit "-o"
      ∷ lit "RemoteCommand=none"
      ∷ []

  pub preset_program :
      (connect_timeout : ℕ)
      → preset_words connect_timeout ≡ lit "ssh" ∷ preset_options connect_timeout
  unfolding preset_words
  preset_program connect_timeout = refl

  preset-Told :
      (connect_timeout : ℕ) → Told (preset_options connect_timeout) (preset_told connect_timeout)
  unfolding lit
  preset-Told connect_timeout =
      setting _
        (setting _ (setting _ (setting _ (setting _ (setting _ (setting _ (setting _ done)))))))

  pub front-Told :
      (options : SshArgv)
      → Told
          (preset_options options.connect_timeout_seconds
            ++ (identity_words options.identity_file ++ (port_words options.port ++ lit "-T" ∷ [])))
          (told_of options)
  unfolding lit
  front-Told options = Told-append (preset-Told options.connect_timeout_seconds) (
      Told-append (identity-Told options.identity_file)
        (Told-append (port-Told options.port) (alone [] [] done)))
