-- ===== src/Lifecycle/Shutdown.antt =====
-- Stopping the server: what is refused, what is removed, and a storage that is opened again.
use fedbox.Prelude.{
  ◌≡◌, refl, ◌⊎◌, Bool, true, false, Option, none, some, List, [], ◌∷◌, Text, arith, text_eq,
  text_beq_iff, ==_refl,
}
use fedbox.Go.FilePath.{is_abs}
use fedbox.Fault.{Fault, service_unavailable}
use fedbox.Config.Options.{Environ, System}
use fedbox.Config.Paths.{pid_path, internal_socket_path}
use fedbox.Config.Load.{ConfigFiles}
use fedbox.Middleware.{out_of_order_mw}
use fedbox.Lifecycle.{
  Signal, sighup, sigusr1, sigint, sigterm, sigquit, Backend, App, stop, handle_signal,
  handle_signals,
}
use fedbox.Lifecycle.Invariant.{IsStorage}

-- The signals on which the server stops
abbrev pub stops : Signal → Bool
stops sigint = true
stops sigterm = true
stops sigquit = true
stops _ = false

module _ (B : Backend) (sys : System) (getenv : Environ) (files : ConfigFiles) where
  handle_signals-shutting_down :
      (signals : List Signal) (f : App B)
      → f.shutting_down ≡ true
      → (handle_signals B sys getenv files signals f).shutting_down ≡ true
  unfolding handle_signals handle_signal
  handle_signals-shutting_down [] f h = h
  handle_signals-shutting_down (sighup ∷ signals) f h = handle_signals-shutting_down signals _ h
  handle_signals-shutting_down (s ∷ signals) f h =
      handle_signals-shutting_down signals (handle_signal B sys getenv files s f) (ground arith)

  handle_signal-stops :
      (s : Signal) (f : App B)
      → stops s ≡ true
      → (handle_signal B sys getenv files s f).shutting_down ≡ true
  unfolding handle_signal
  handle_signal-stops sigint f h = refl
  handle_signal-stops s f h = ground arith

  -- After a signal that stops the server, and whatever signals follow, every request is answered
  -- by a service that is unavailable.
  pub refused_after_stop :
      (s : Signal) (signals : List Signal) (f : App B) (answer : Option Fault)
      → stops s ≡ true
      → let f' = handle_signals B sys getenv files (s ∷ signals) f in
        out_of_order_mw f'.shutting_down f'.maintenance_mode some answer ≡ some service_unavailable
  unfolding out_of_order_mw handle_signals
  refused_after_stop s signals f answer h = rw (
      handle_signals-shutting_down signals (handle_signal B sys getenv files s f)
        (handle_signal-stops s f h))

  -- Stopping removes the pid file and the internal socket, and the listening socket if its path is
  -- absolute; every other file is kept.
  stop_removes :
      (f : App B) (p : Text)
      → ((stop B sys getenv files f).0.files (pid_path sys getenv f.conf) ≡ false)
        × ((stop B sys getenv files f).0.files (internal_socket_path sys getenv f.conf) ≡ false)
        × ((is_abs f.conf.socket_path ≡ false)
            ⊎ ((stop B sys getenv files f).0.files f.conf.socket_path ≡ false))
        × ((p ≡ pid_path sys getenv f.conf)
            ⊎ (p ≡ internal_socket_path sys getenv f.conf)
            ⊎ (p ≡ f.conf.socket_path)
            ⊎ ((stop B sys getenv files f).0.files p ≡ f.files p))
  unfolding stop
  stop_removes f p =
      let pid = pid_path sys getenv f.conf in
      let internal = internal_socket_path sys getenv f.conf in
      let socket = f.conf.socket_path in
      (
        ground (arith, text_beq_iff pid internal, text_beq_iff pid socket, ==_refl pid),
        ground (arith, text_beq_iff internal pid, text_beq_iff internal socket, ==_refl internal),
        ground (arith, ==_refl socket, text_beq_iff socket pid, text_beq_iff socket internal),
        ground (arith, text_beq_iff p pid, text_beq_iff p internal, text_beq_iff p socket),
      )

  -- With a storage that opens and closes as is documented, a SIGUSR1 that is handled after the signal
  -- that stops a server in maintenance mode opens the storage again, if it can be opened, while the
  -- server shuts down.
  reopened_after_stop :
      (L : IsStorage B) (s : Signal) (f : App B)
      → stops s ≡ true
      → f.maintenance_mode ≡ true
      → (B.open_storage (B.close_storage f.storage)).1 ≡ none
      → let f' = handle_signals B sys getenv files (s ∷ sigusr1 ∷ []) f in
        (f'.shutting_down ≡ true) × (B.is_open f'.storage ≡ true)
  unfolding handle_signals handle_signal
  reopened_after_stop L sigint f h m e =
      ground (arith, L.is_open-open (B.close_storage f.storage) e)
  reopened_after_stop L s f h m e = ground (arith, L.is_open-open (B.close_storage f.storage) e)
