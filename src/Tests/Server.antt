-- ===== src/Tests/Server.antt =====
-- The theorems on a server that is set up, and on the commands that reach it.
use fedbox.Prelude.{
  ◌≡◌, ◌≢◌, ◌↔◌, ◌⊎◌, refl, true, false, none, some, List, [], ◌∷◌, Text, codes, arith, Option, ℕ,
  ◌==◌, nat_eq, if◌then◌else◌,
}
use fedbox.Fault.{Fault, ok, failed}
use fedbox.Config.Options.{Options}
use fedbox.Config.Pid.{Files, write_pid}
use fedbox.Lifecycle.{
  App, Signal, sigusr1, sigusr2, sigterm, sent_all, handle_signal, handle_signals,
}
use fedbox.Lifecycle.Modes.{modes_of, promised_all}
use fedbox.Lifecycle.New.{Assembly, Ctl, Server, Outcome, server_made, no_server, new}
use fedbox.Lifecycle.New.Laws.{fresh_modes, Opened, is_made, new-Opened, new_runs, new_iff}
use fedbox.Command.Signals.{signal_cmd, maintenance_cmd, wanted, signal_cmd-wanted}
use fedbox.Tests.World.{
  backend, backend-IsStorage, system, environ, config_files, options, base_url, self, Doc,
}

abbrev assembly : Assembly backend
assembly = record {
  Actor = Doc;
  Key = Text;
  service_iri = λ t. t;
  load_actor = λ s i. ok self;
  load_key = λ s i. ok (codes "key");
  saves_metadata = true;
  new_cache = λ b. 7;
  dir_exists = λ p. true;
  marshal_pkcs8 = ok;
  encode_pem = λ t. t;
  new_http_server = λ fns. none;
  new_ssh_server = λ fns. none;
  mux = λ fns. none;
}

abbrev with_ssh : Options
with_ssh = record options { base_url = base_url; ssh_port = 2022; env = codes "prod" }

abbrev ctl : Ctl backend assembly system environ
ctl = record { storage = some false; conf = with_ssh; service = none; private_key = none }

abbrev Made : Outcome backend assembly system environ → Type 0
Made o = (srv : Server backend assembly system environ) × (o ≡ server_made srv)

made_of :
    (o : Outcome backend assembly system environ)
    → is_made backend assembly system environ config_files o ≡ true
    → Made o
made_of (server_made srv) h = (srv, refl)
made_of (no_server s files e) h = ground arith

abbrev chosen : Made (new backend assembly system environ (some ctl) (λ p. false))
unfolding new
chosen = made_of (new backend assembly system environ (some ctl) (λ p. false)) refl

abbrev signals : List Signal
signals = sigusr1 ∷ sigusr2 ∷ sigterm ∷ sigusr1 ∷ []

new_runs_example :
    (modes_of backend system environ config_files
        (handle_signals backend system environ config_files signals chosen.0.app)
      ≡ promised_all signals (fresh_modes with_ssh))
    × (((handle_signals backend system environ config_files signals chosen.0.app).shutting_down
          ≡ false)
        ↔ (sent_all backend signals ≡ []))
new_runs_example =
    new_runs backend assembly system environ config_files backend-IsStorage (λ s. refl) ctl
      (λ p. false) chosen.0 signals chosen.1

-- Signals reach the one process there is.
abbrev kill : ℕ → Signal → App backend → App backend × Option Fault
kill pid sig f =
    if pid == 4711
    then (handle_signal backend system environ config_files sig f, none)
    else (f, some failed)

abbrev no_files : Files
no_files p = none

abbrev reached : App backend × Option Fault
reached =
    signal_cmd kill system environ options maintenance_cmd
      (write_pid system environ options true 4711 no_files).0 chosen.0.app

signal_cmd-wanted_example :
    (reached.1 ≡ none)
    × (modes_of backend system environ config_files reached.0
        ≡ wanted maintenance_cmd (modes_of backend system environ config_files chosen.0.app))
signal_cmd-wanted_example =
    signal_cmd-wanted backend system environ config_files kill options 4711 backend-IsStorage
      (λ s. refl) maintenance_cmd no_files chosen.0.app (omega arith) (λ sig f. refl)

new-Opened_example :
    Opened backend assembly system environ config_files with_ssh
      (new backend assembly system environ (some ctl) (λ p. false))
new-Opened_example =
    new-Opened backend assembly system environ config_files backend-IsStorage ctl false (λ p. false)
      refl refl

new_iff_example :
    (is_made backend assembly system environ config_files
        (new backend assembly system environ (some ctl) (λ p. false))
      ≡ true)
    ↔ (((backend.open_storage false).1 ≡ none)
        × ((with_ssh.socket_path ≢ []) ⊎ (with_ssh.http_port ≢ 0)))
new_iff_example =
    new_iff backend assembly system environ config_files (λ fns. refl) (λ fns. refl) ctl false
      (λ p. false) refl
