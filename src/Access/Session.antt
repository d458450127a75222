-- ===== src/Access/Session.antt =====
-- ssh.go: `runSSHCommand` and `MainTui`, which run the commands of a session in the server.
pub mod Reset
use fedbox.Prelude.{
  ℕ, Bool, true, false, not, Option, none, some, List, [], ◌∷◌, Text, if◌then◌else◌,
}
use fedbox.Fault.{Fault, Result, ok, err, failed}

-- What is seen of a session from outside: whether the terminal program is started, and the codes
-- that the session is ended with, in order
pub record Ended : Type 0 where
  pub tui : Bool
  pub exits : List ℕ

-- The package kong: making the parser, which may fail, parsing, and `Run` of the command that is
-- found, which acts on the state of the server.
pub record Kong {ℓ} (State : Type ℓ) : Type (ℓ ⊔ 1) where
  pub Command : Type 0
  pub new_parser : Option Fault
  pub parse : List Text → Result Command
  pub run : Command → State → State × Option Fault

module _ {ℓ} {State : Type ℓ} (K : Kong State) where
  -- `Run` of the command that was parsed, with the storage of the server
  run_parsed : Result K.Command → State → State × Option Fault
  run_parsed (err e) s = (s, some e)
  run_parsed (ok cmd) s = K.run cmd s

  unfoldable pub run_ssh_command : List Text → State → State × Option Fault
  unfolding run_parsed
  run_ssh_command [] s = (s, some failed)
  run_ssh_command (arg ∷ args) s = elim K.new_parser [
    | some e ↦ (s, some e)
    | none ↦ run_parsed (K.parse (arg ∷ args)) s
  ]

  -- After an error the session is ended twice.
  exits_after : Option Fault → List ℕ
  exits_after (some e) = 1 ∷ 0 ∷ []
  exits_after none = 0 ∷ []

  -- `MainTui` with a session's command, in a terminal that is active or not
  unfoldable pub main_tui : Bool → List Text → State → State × Ended
  unfolding run_ssh_command exits_after
  main_tui active (arg ∷ args) s =
      let (s', e) = run_ssh_command (arg ∷ args) s in
      (s', record { tui = false; exits = exits_after e })
  main_tui true [] s = (s, record { tui = true; exits = [] })
  main_tui false [] s = (s, record { tui = false; exits = 1 ∷ [] })
