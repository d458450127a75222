-- ===== src/Lifecycle/Invariant.antt =====
-- The storage and the maintenance mode under any sequence of signals.
use fedbox.Prelude.{
  ◌≡◌, refl, ◌⊎◌, inl, inr, Bool, true, false, not, none, List, [], ◌∷◌, arith, if◌then◌else◌,
}
use fedbox.Config.Options.{Environ, System}
use fedbox.Config.Load.{ConfigFiles}
use fedbox.Lifecycle.{
  Signal, sighup, sigusr1, sigusr2, sigint, sigterm, sigquit, Backend, App, handle_signal,
  handle_signals,
}

-- What is documented of a storage: closing closes it, and opening one without an error opens it.
pub record IsStorage (B : Backend) : Type 0 where
  pub is_open-close : (s : B.Storage) → B.is_open (B.close_storage s) ≡ false
  pub is_open-open :
      (s : B.Storage) → (B.open_storage s).1 ≡ none → B.is_open (B.open_storage s).0 ≡ true

abbrev same_signal : Signal → Signal → Bool
same_signal sighup sighup = true
same_signal sigusr1 sigusr1 = true
same_signal sigusr2 sigusr2 = true
same_signal sigint sigint = true
same_signal sigterm sigterm = true
same_signal sigquit sigquit = true
same_signal _ _ = false

abbrev flip : Bool → Bool → Bool
flip change b = if change then not b else b

-- A signal occurs an odd number of times.
occurs_odd : Signal → List Signal → Bool
occurs_odd s [] = false
occurs_odd s (t ∷ signals) = flip (same_signal s t) (occurs_odd s signals)

module _ (B : Backend) (sys : System) (getenv : Environ) (files : ConfigFiles) where
  -- The storage is closed in maintenance mode.
  abbrev pub IsQuiet : App B → Type 0
  IsQuiet f = (f.maintenance_mode ≡ false) ⊎ (B.is_open f.storage ≡ false)

  handle_signal-IsQuiet :
      (L : IsStorage B) (s : Signal) (f : App B)
      → IsQuiet f
      → IsQuiet (handle_signal B sys getenv files s f)
  unfolding handle_signal
  handle_signal-IsQuiet L sigusr1 f h = ground (arith, L.is_open-close f.storage)
  handle_signal-IsQuiet L sigint f h = inr (L.is_open-close f.storage)
  handle_signal-IsQuiet L sigterm f h = inr (L.is_open-close f.storage)
  handle_signal-IsQuiet L sigquit f h = inr (L.is_open-close f.storage)
  handle_signal-IsQuiet L sighup f h = h
  handle_signal-IsQuiet L sigusr2 f h = h

  -- With a storage that opens and closes as is documented, from a state where it is closed in
  -- maintenance mode, any sequence of signals leads to such a state, also when opening it fails.
  pub handle_signals-IsQuiet :
      (L : IsStorage B) (signals : List Signal) (f : App B)
      → IsQuiet f
      → IsQuiet (handle_signals B sys getenv files signals f)
  unfolding handle_signals
  handle_signals-IsQuiet L [] f h = h
  handle_signals-IsQuiet L (s ∷ signals) f h =
      handle_signals-IsQuiet L signals (handle_signal B sys getenv files s f)
        (handle_signal-IsQuiet L s f h)

  -- Opening the storage never fails.
  abbrev OpensAlways : Type 0
  OpensAlways = (s : B.Storage) → (B.open_storage s).1 ≡ none

  -- The storage is open exactly outside maintenance mode, until the server shuts down.
  abbrev IsServing : App B → Type 0
  IsServing f = (f.shutting_down ≡ true) ⊎ (B.is_open f.storage ≡ not f.maintenance_mode)

  handle_signal-IsServing :
      (L : IsStorage B) (opens : OpensAlways) (s : Signal) (f : App B)
      → IsServing f
      → IsServing (handle_signal B sys getenv files s f)
  unfolding handle_signal
  handle_signal-IsServing L opens sigusr1 f h =
      ground (arith, L.is_open-close f.storage, L.is_open-open f.storage (opens f.storage))
  handle_signal-IsServing L opens sigint f h = inl refl
  handle_signal-IsServing L opens sigterm f h = inl refl
  handle_signal-IsServing L opens sigquit f h = inl refl
  handle_signal-IsServing L opens sighup f h = h
  handle_signal-IsServing L opens sigusr2 f h = h

  -- With a storage that opens and closes as is documented, and where opening it never fails, any
  -- sequence of signals keeps it open exactly outside maintenance mode, until the server shuts down.
  handle_signals-IsServing :
      (L : IsStorage B) (opens : OpensAlways) (signals : List Signal) (f : App B)
      → IsServing f
      → IsServing (handle_signals B sys getenv files signals f)
  unfolding handle_signals
  handle_signals-IsServing L opens [] f h = h
  handle_signals-IsServing L opens (s ∷ signals) f h =
      handle_signals-IsServing L opens signals (handle_signal B sys getenv files s f)
        (handle_signal-IsServing L opens s f h)

  -- After any signals the maintenance mode is the old one if SIGUSR1 came an even number of times,
  -- and the other one if it came an odd number of times; so it is with SIGUSR2 and the debug mode.
  handle_signals_modes :
      (signals : List Signal) (f : App B)
      → ((handle_signals B sys getenv files signals f).maintenance_mode
          ≡ flip (occurs_odd sigusr1 signals) f.maintenance_mode)
        × ((handle_signals B sys getenv files signals f).debug_mode
            ≡ flip (occurs_odd sigusr2 signals) f.debug_mode)
  unfolding handle_signals handle_signal occurs_odd
  handle_signals_modes [] f = (refl, refl)
  handle_signals_modes (sighup ∷ signals) f = handle_signals_modes signals _
  handle_signals_modes (s ∷ signals) f =
      ground (arith, handle_signals_modes signals (handle_signal B sys getenv files s f))
