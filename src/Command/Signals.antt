-- ===== src/Command/Signals.antt =====
-- cmd-maintenance.go, and `SendSignalToServer` of base.go: the commands that send a signal.
use fedbox.Prelude.{ℕ, ◌≤◌, ◌≡◌, ap, ◌∙◌, true, false, not, Option, none, some, text_eq}
use fedbox.Go.Decimal.{max_uint32}
use fedbox.Fault.{Fault, failed}
use fedbox.Config.Options.{Options, Environ, System}
use fedbox.Config.Load.{ConfigFiles}
use fedbox.Config.Pid.{Files, write_pid, read_pid}
use fedbox.Config.Pid.Laws.{read_pid_written}
use fedbox.Lifecycle.{Signal, sighup, sigusr1, sigusr2, sigterm, Backend, App, handle_signal}
use fedbox.Lifecycle.Invariant.{IsStorage}
use fedbox.Lifecycle.Modes.{Modes, modes_of, modes_of-handle_signal, promised}

pub data SignalCommand : Type 0 where
  maintenance_cmd debug_cmd reload_cmd stop_cmd : SignalCommand

module _ {ℓ} {S : Type ℓ} (kill : ℕ → Signal → S → S × Option Fault) (sys : System)
    (getenv : Environ) (o : Options) where
  -- The first half reads the file, the function that it gives sends the signal by `kill`.
  send_signal_to_server : Files → Signal → S → S × Option Fault
  send_signal_to_server files sig s = elim (read_pid sys getenv o files) [
    | none ↦ (s, some failed)
    | some pid ↦ kill pid sig s
  ]

  -- `Run` of the four commands
  unfoldable pub signal_cmd : SignalCommand → Files → S → S × Option Fault
  unfolding send_signal_to_server
  signal_cmd maintenance_cmd files = send_signal_to_server files sigusr1
  signal_cmd debug_cmd files = send_signal_to_server files sigusr2
  signal_cmd reload_cmd files = send_signal_to_server files sighup
  signal_cmd stop_cmd files = send_signal_to_server files sigterm

-- What a command is documented to do to the modes of a server: toggle one of them, stop the server,
-- or leave the modes alone.
abbrev pub wanted : SignalCommand → Modes → Modes
wanted maintenance_cmd m = record m { maintenance = not m.maintenance; serving = m.maintenance }
wanted debug_cmd m = record m { debug = not m.debug }
wanted reload_cmd m = m
wanted stop_cmd m = record m { shutting_down = true; serving = false }

module _ (B : Backend) (sys : System) (getenv : Environ) (config : ConfigFiles) where
  -- A process that runs the server as `pid` handles the signals that are sent to it.
  abbrev Delivers : (ℕ → Signal → App B → App B × Option Fault) → ℕ → Type 0
  Delivers kill pid =
      (sig : Signal) (f : App B) → kill pid sig f ≡ (handle_signal B sys getenv config sig f, none)

  module _ (kill : ℕ → Signal → App B → App B × Option Fault) (o : Options) (pid : ℕ) where
    reached :
        (files : Files) (sig : Signal) (f : App B)
        → pid ≤ max_uint32
        → Delivers kill pid
        → send_signal_to_server kill sys getenv o (write_pid sys getenv o true pid files).0 sig f
          ≡ (handle_signal B sys getenv config sig f, none)
    unfolding send_signal_to_server
    reached files sig f small delivers =
        rw (read_pid_written sys getenv o pid files small, send_signal_to_server) (delivers sig f)

    effect :
        (L : IsStorage B) (opens : (s : B.Storage) → (B.open_storage s).1 ≡ none) (sig : Signal)
        (files : Files) (f : App B)
        → pid ≤ max_uint32
        → Delivers kill pid
        → let r =
            send_signal_to_server kill sys getenv o
              (write_pid sys getenv o true pid files).0
              sig
              f in
          (r.1 ≡ none)
          × (modes_of B sys getenv config r.0 ≡ promised sig (modes_of B sys getenv config f))
    effect L opens sig files f small delivers =
        let is = reached files sig f small delivers in
        (
          ap (λ r. r.1) is,
          ap (λ r. modes_of B sys getenv config r.0) is
              ∙ modes_of-handle_signal B sys getenv config L opens sig f,
        )

    -- If the server has written its pid and gets the signals that are sent to it, then with a
    -- storage that opens and closes as is documented, and where opening it never fails, each of the
    -- four commands returns no error and does to the modes of the server what it is documented to do.
    pub signal_cmd-wanted :
        (L : IsStorage B) (opens : (s : B.Storage) → (B.open_storage s).1 ≡ none)
        (cmd : SignalCommand) (files : Files) (f : App B)
        → pid ≤ max_uint32
        → Delivers kill pid
        → let (f', e) =
            signal_cmd kill sys getenv o cmd (write_pid sys getenv o true pid files).0 f in
          (e ≡ none)
          × (modes_of B sys getenv config f' ≡ wanted cmd (modes_of B sys getenv config f))
    unfolding signal_cmd promised
    signal_cmd-wanted L opens maintenance_cmd files f small delivers =
        effect L opens sigusr1 files f small delivers
    signal_cmd-wanted L opens debug_cmd files f small delivers =
        effect L opens sigusr2 files f small delivers
    signal_cmd-wanted L opens reload_cmd files f small delivers =
        effect L opens sighup files f small delivers
    signal_cmd-wanted L opens stop_cmd files f small delivers =
        effect L opens sigterm files f small delivers
