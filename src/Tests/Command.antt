-- ===== src/Tests/Command.antt =====
-- The theorems on the commands, at a running server and a small storage.
use fedbox.Prelude.{◌≡◌, refl, true, false, none, some, [], ◌∷◌, ◌++◌, codes, text_eq}
use fedbox.Fault.{ok, failed}
use fedbox.Lifecycle.{App, sigusr1, handle_signal}
use fedbox.Command.Run.{run, Outcome, run_mode}
use fedbox.Command.Import.{Bases, rebased, import_files, import_files_last}
use fedbox.Tests.World.{note, vocab, store, backend, system, environ, config_files, options}

abbrev serving : App backend
serving = record {
  storage = true;
  caches = 3;
  conf = options;
  maintenance_mode = false;
  shutting_down = false;
  debug_mode = false;
  files = λ p. true;
}

run_mode_example :
    ((handle_signal backend system environ config_files sigusr1 serving).maintenance_mode ≡ true)
    × Outcome backend system environ config_files
        (codes "pub add")
        none
        (some failed)
        (λ app. (app, none))
        (handle_signal backend system environ config_files sigusr1 serving)
        (run backend system environ config_files true
          (codes "pub add")
          none
          (some failed)
          (λ app. (app, none))
          serving).1
    × ((run backend system environ config_files true
          (codes "pub add")
          none
          (some failed)
          (λ app. (app, none))
          serving).0.maintenance_mode
        ≡ false)
run_mode_example =
    run_mode backend system environ config_files (codes "pub add") none (some failed)
      (λ app. (app, none)) serving refl (λ app. refl)

abbrev bases : Bases
bases = record { to_replace = []; base_url = codes "https://x.org" }

import_files_last_example :
    import_files vocab store bases ((ok (codes "first") ∷ []) ++ (ok (codes "second") ∷ [])) []
    ≡ import_files vocab store bases (ok (codes "second") ∷ []) []
unfolding rebased
import_files_last_example =
    import_files_last vocab store bases (ok (codes "first") ∷ []) b's' (codes "econd")
      (note (codes "second") (codes "Create" ∷ []) [] []) [] refl refl
