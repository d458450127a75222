-- ===== src/Tests/Lifecycle.antt =====
-- The theorems on a running server, at a short life.
use fedbox.Prelude.{◌≡◌, refl, inl, true, false, some, none, List, [], ◌∷◌}
use fedbox.Fault.{service_unavailable}
use fedbox.Middleware.{out_of_order_mw}
use fedbox.Lifecycle.{Signal, sigusr1, sigusr2, sighup, sigterm, App, handle_signals}
use fedbox.Lifecycle.Invariant.{IsQuiet, handle_signals-IsQuiet}
use fedbox.Lifecycle.Shutdown.{refused_after_stop}
use fedbox.Tests.World.{backend, backend-IsStorage, system, environ, config_files, options}

abbrev started : App backend
started = record {
  storage = true;
  caches = 3;
  conf = options;
  maintenance_mode = false;
  shutting_down = false;
  debug_mode = false;
  files = λ p. true;
}

abbrev signals : List Signal
signals = sigusr1 ∷ sighup ∷ sigusr2 ∷ sigusr1 ∷ sigusr1 ∷ []

handle_signals-IsQuiet_example :
    IsQuiet backend system environ config_files
      (handle_signals backend system environ config_files signals started)
handle_signals-IsQuiet_example =
    handle_signals-IsQuiet backend system environ config_files backend-IsStorage signals started
      (inl refl)

refused_after_stop_example :
    let f' = handle_signals backend system environ config_files (sigterm ∷ sigusr1 ∷ []) started in
    out_of_order_mw f'.shutting_down f'.maintenance_mode some none ≡ some service_unavailable
refused_after_stop_example =
    refused_after_stop backend system environ config_files sigterm (sigusr1 ∷ []) started none refl

abbrev paused : App backend
paused = record started { storage = false; maintenance_mode = true }
