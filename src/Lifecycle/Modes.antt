-- ===== src/Lifecycle/Modes.antt =====
-- What a running server is, seen from outside: its modes, and whether its storage is open.
use fedbox.Prelude.{◌≡◌, refl, ap, ◌∙◌, Bool, true, false, not, none, List, [], ◌∷◌, arith}
use fedbox.Config.Options.{Environ, System}
use fedbox.Config.Load.{ConfigFiles}
use fedbox.Lifecycle.{
  Signal, sighup, sigusr1, sigusr2, sigint, sigterm, sigquit, Backend, App, handle_signal,
  handle_signals,
}
use fedbox.Lifecycle.Invariant.{IsStorage}

pub record Modes : Type 0 where
  pub maintenance : Bool
  pub shutting_down : Bool
  pub debug : Bool
  pub serving : Bool

-- What a signal promises: SIGUSR1 changes the maintenance mode and serves exactly outside it, SIGUSR2
-- changes the debug mode, SIGHUP nothing, and the others stop the server.
unfoldable pub promised : Signal → Modes → Modes
promised sighup m = m
promised sigusr1 m = record m { maintenance = not m.maintenance; serving = m.maintenance }
promised sigusr2 m = record m { debug = not m.debug }
promised sigint m = record m { shutting_down = true; serving = false }
promised sigterm m = record m { shutting_down = true; serving = false }
promised sigquit m = record m { shutting_down = true; serving = false }

unfoldable pub promised_all : List Signal → Modes → Modes
promised_all [] m = m
promised_all (s ∷ signals) m = promised_all signals (promised s m)

module _ (B : Backend) (sys : System) (getenv : Environ) (files : ConfigFiles) where
  abbrev pub modes_of : App B → Modes
  modes_of f = record {
    maintenance = f.maintenance_mode;
    shutting_down = f.shutting_down;
    debug = f.debug_mode;
    serving = B.is_open f.storage;
  }

  pub modes_of-handle_signal :
      (L : IsStorage B) (opens : (s : B.Storage) → (B.open_storage s).1 ≡ none) (s : Signal)
      (f : App B)
      → modes_of (handle_signal B sys getenv files s f) ≡ promised s (modes_of f)
  unfolding handle_signal promised
  modes_of-handle_signal L opens sighup f = refl
  modes_of-handle_signal L opens sigusr1 f =
      ground (arith, L.is_open-close f.storage, L.is_open-open f.storage (opens f.storage))
  modes_of-handle_signal L opens sigusr2 f = refl
  modes_of-handle_signal L opens sigint f =
      ap (λ b. record (modes_of f) { shutting_down = true; serving = b })
        (L.is_open-close f.storage)
  modes_of-handle_signal L opens sigterm f =
      ap (λ b. record (modes_of f) { shutting_down = true; serving = b })
        (L.is_open-close f.storage)
  modes_of-handle_signal L opens sigquit f =
      ap (λ b. record (modes_of f) { shutting_down = true; serving = b })
        (L.is_open-close f.storage)

  -- With a storage that opens and closes as is documented, and where opening it never fails, any
  -- sequence of signals leads to the modes that the signals promise one after the other.
  pub handle_signals_refines :
      (L : IsStorage B) (opens : (s : B.Storage) → (B.open_storage s).1 ≡ none)
      (signals : List Signal) (f : App B)
      → modes_of (handle_signals B sys getenv files signals f) ≡ promised_all signals (modes_of f)
  unfolding handle_signals promised_all
  handle_signals_refines L opens [] f = refl
  handle_signals_refines L opens (s ∷ signals) f =
      handle_signals_refines L opens signals (handle_signal B sys getenv files s f)
      ∙ ap (promised_all signals) (modes_of-handle_signal L opens s f)
