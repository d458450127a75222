-- ===== src/Config/Pid.antt =====
-- The file with the number of the server's process, in a file system that maps paths to contents.
pub mod Laws
use fedbox.Prelude.{
  ℕ, ◌≡◌, refl, Bool, true, false, Option, none, some, List, [], ◌∷◌, Text, ◌==◌, text_eq,
  if◌then◌else◌,
}
use fedbox.Go.Decimal.{append_uint, Parsed, parsed, syntax_error, range_error, parse_uint32}
use fedbox.Config.Options.{Options, Environ, System}
use fedbox.Config.Paths.{pid_path}

-- `os.ReadFile`; `none` is its error.
abbrev pub Files : Type 0
Files = Text → Option Text

-- `os.WriteFile`, whose file is replaced if it exists
abbrev write_file : Files → Text → Text → Files
write_file files path content p = if p == path then some content else files p

module _ (sys : System) (getenv : Environ) (o : Options) where
  -- `os.MkdirAll` and `os.WriteFile` may fail, and then nothing is written.
  unfoldable pub write_pid : Bool → ℕ → Files → Files × Bool
  write_pid writable pid files =
      if writable
      then (write_file files (pid_path sys getenv o) (append_uint pid), true)
      else (files, false)

  pid_of : Parsed → Option ℕ
  pid_of (parsed n) = some n
  pid_of syntax_error = none
  pid_of range_error = none

  -- `ReadPid`; `none` is -1 with an error.
  unfoldable pub read_pid : Files → Option ℕ
  unfolding pid_of
  read_pid files = elim (files (pid_path sys getenv o)) [
    | none ↦ none
    | some raw ↦ pid_of (parse_uint32 raw)
  ]
