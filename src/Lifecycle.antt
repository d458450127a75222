-- ===== src/Lifecycle.antt =====
-- app.go: the state of a running server, and what the signals do to it.
pub mod Invariant
pub mod Shutdown
pub mod Modes
pub mod New
pub mod Serve
use fedbox.Prelude.{
  ℕ, Bool, true, false, not, ◌&&◌, ◌||◌, Option, none, some, List, [], ◌∷◌, ◌++◌, Text, codes, ◌==◌,
  text_eq, if◌then◌else◌,
}
use fedbox.Go.FilePath.{is_abs}
use fedbox.Fault.{Fault}
use fedbox.Config.Options.{Options, Environ, System}
use fedbox.Config.Paths.{pid_path, internal_socket_path}
use fedbox.Config.Load.{ConfigFiles, load}

pub data Signal : Type 0 where
  sighup sigusr1 sigusr2 sigint sigterm sigquit : Signal

-- The storage and the cache of other packages: `Open`, which may fail, `Close`, and the cache's
-- `Delete`; and `Stop` of the listening servers, which may fail.
pub record Backend : Type 1 where
  pub Storage : Type 0
  pub Cache : Type 0
  pub open_storage : Storage → Storage × Option Fault
  pub close_storage : Storage → Storage
  pub is_open : Storage → Bool
  pub delete_all : Cache → Cache
  pub stop_server : Option Fault

-- What `Run` gives as its error: `Interrupt`, or the error of stopping the servers
pub data RunExit : Type 0 where
  interrupt : RunExit
  run_error : Fault → RunExit

-- `exitWithErrOrInterrupt`
exit_with : Option Fault → RunExit
exit_with none = interrupt
exit_with (some e) = run_error e

module _ (B : Backend) where
  -- What the handlers of `Run` send to its channel `exit`
  unfoldable sent : Signal → List RunExit
  unfolding exit_with
  sent sigint = exit_with B.stop_server ∷ []
  sent sigterm = exit_with B.stop_server ∷ []
  sent sigquit = exit_with B.stop_server ∷ []
  sent _ = []

  unfoldable pub sent_all : List Signal → List RunExit
  unfolding sent
  sent_all [] = []
  sent_all (s ∷ signals) = sent s ++ sent_all signals

  -- `FedBOX`, with the files that exist
  pub record App : Type 0 where
    pub storage : B.Storage
    pub caches : B.Cache
    pub conf : Options
    pub maintenance_mode : Bool
    pub shutting_down : Bool
    pub debug_mode : Bool
    pub files : Text → Bool

  -- `Pause`
  unfoldable pause : App → App × Option Fault
  pause f =
      if f.maintenance_mode
      then (record f { storage = B.close_storage f.storage }, none)
      else let (storage, e) = B.open_storage f.storage in (record f { storage = storage }, e)

  module _ (sys : System) (getenv : Environ) (config_files : ConfigFiles) where
    -- `os.RemoveAll` of a path that is no directory
    remove : Text → (Text → Bool) → Text → Bool
    remove path files p = if p == path then false else files p

    remove_socket : Text → (Text → Bool) → Text → Bool
    unfolding remove
    remove_socket path files = if is_abs path && files path then remove path files else files

    -- The deferred part of `Stop`
    clean_up : Options → (Text → Bool) → Text → Bool
    unfolding remove remove_socket
    clean_up conf files =
        remove_socket conf.socket_path
          (remove (internal_socket_path sys getenv conf) (remove (pid_path sys getenv conf) files))

    -- `Stop`
    unfoldable pub stop : App → App × Option Fault
    unfolding clean_up
    stop f = (
      record f {
        storage = B.close_storage f.storage;
        shutting_down = true;
        files = clean_up f.conf f.files;
      },
      B.stop_server,
    )

    -- `reload`, in the working directory
    unfoldable pub reload : App → App
    reload f = record f {
      conf = (load sys config_files getenv f.conf (codes ".")).opts;
      caches = B.delete_all f.caches;
    }

    -- The handlers that `Run` registers
    unfoldable pub handle_signal : Signal → App → App
    unfolding pause stop reload
    handle_signal sighup f = reload f
    handle_signal sigusr2 f = record f { debug_mode = not f.debug_mode }
    handle_signal sigusr1 f = (pause (record f { maintenance_mode = not f.maintenance_mode })).0
    handle_signal sigint f = (stop f).0
    handle_signal sigterm f = (stop f).0
    handle_signal sigquit f = (stop f).0

    -- A sequence of signals, in the order in which they arrive
    unfoldable pub handle_signals : List Signal → App → App
    handle_signals [] f = f
    handle_signals (s ∷ signals) f = handle_signals signals (handle_signal s f)
