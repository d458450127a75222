-- ===== src/Tests/Session.antt =====
-- The reset of a storage in a session of SSH, at a small server.
use fedbox.Prelude.{◌≡◌, refl, true, false, none, some, [], ◌∷◌, Text, codes}
use fedbox.Fault.{ok}
use fedbox.Access.Session.{Kong, main_tui}
use fedbox.Access.Session.Reset.{ServerApp, reset_in_session, main_tui_reset}
use fedbox.Tests.World.{
  vault_opens, vocab, crypto, vault, backing, adding, founding, founders, system, self, with_url,
  empty_vault,
}

abbrev Running : Type 0
Running = ServerApp crypto vocab vault backing adding founding founders system Text (λ c. []) none

-- The one command is the reset.
abbrev kong : Kong Running
kong = record {
  Command = Unit;
  new_parser = none;
  parse = λ args. ok tt;
  run = λ cmd f.
      reset_in_session crypto vocab vault backing adding founding founders system Text (λ c. [])
        none self (some 5) f;
}

abbrev running : Running
running = record {
  storage = record empty_vault { opened = true };
  caches = [];
  conf = with_url;
  maintenance_mode = false;
  shutting_down = false;
  debug_mode = false;
  files = λ p. false;
}

abbrev after : Running
after = (main_tui kong false (codes "storage" ∷ codes "reset" ∷ []) running).0

main_tui_reset_example :
    (backing.is_open after.storage ≡ false)
    × (after.maintenance_mode ≡ false)
    × (after.shutting_down ≡ false)
    × (after.debug_mode ≡ false)
main_tui_reset_example =
    main_tui_reset crypto vocab vault backing adding founding founders system Text (λ c. []) none
      vault_opens kong tt self (some 5) false (codes "storage") (codes "reset" ∷ []) running refl
      refl (λ g. refl) refl
