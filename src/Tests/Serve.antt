-- ===== src/Tests/Serve.antt =====
-- A server that is made and bootstrapped, at a small storage.
use fedbox.Prelude.{◌≡◌, refl, Bool, true, false, none, some, [], arith, Text}
use fedbox.Fault.{err, failed}
use fedbox.Config.Pid.{Files}
use fedbox.Lifecycle.New.{Ctl, Outcome, server_made, no_server, new}
use fedbox.Lifecycle.Serve.{Surroundings, backend_with, assembly_with, Made, serve}
use fedbox.Lifecycle.Serve.Laws.{ServedAfter, serve-ServedAfter}
use fedbox.Tests.World.{
  vault_opens, vocab, crypto, vault, backing, adding, founding, founders, system, environ, nothing,
  with_url, empty_vault,
}

abbrev surroundings : Surroundings crypto vocab vault
surroundings = record {
  Cache = Text;
  new_cache = λ b. [];
  delete_all = λ c. [];
  stop_server = none;
  service_iri = λ t. t;
  load_actor = λ s i. err failed;
  load_key = λ s i. err failed;
  saves_metadata = true;
  dir_exists = λ p. true;
  marshal_pkcs8 = λ k. err failed;
  encode_pem = λ t. t;
  new_http_server = λ fns. none;
  new_ssh_server = λ fns. none;
  mux = λ fns. none;
  zero_actor = nothing;
}

abbrev OutcomeHere : Type 0
OutcomeHere =
    Outcome
      (backend_with crypto vocab vault backing adding founding founders system environ surroundings)
      (assembly_with crypto vocab vault backing adding founding founders system environ
        surroundings)
      system environ

abbrev MadeHere : Type 0
MadeHere = Made crypto vocab vault backing adding founding founders system environ surroundings

abbrev ctl :
    Ctl
      (backend_with crypto vocab vault backing adding founding founders system environ surroundings)
      (assembly_with crypto vocab vault backing adding founding founders system environ
        surroundings)
      system
      environ
ctl = record { storage = some empty_vault; conf = with_url; service = none; private_key = none }

abbrev start : OutcomeHere
start =
    new
      (backend_with crypto vocab vault backing adding founding founders system environ surroundings)
      (assembly_with crypto vocab vault backing adding founding founders system environ
        surroundings)
      system environ (some ctl) (λ p. false)

abbrev is_made_here : OutcomeHere → Bool
is_made_here (server_made srv) = true
is_made_here (no_server s files e) = false

abbrev got : (o : OutcomeHere) → is_made_here o ≡ true → (srv : MadeHere) × (o ≡ server_made srv)
got (server_made srv) h = (srv, refl)
got (no_server s files e) h = ground arith

chosen_made : is_made_here start ≡ true
unfolding new
chosen_made = refl

abbrev chosen : (srv : MadeHere) × (start ≡ server_made srv)
chosen = got start chosen_made

chosen_url : (chosen.0.app.conf.base_url ≡ with_url.base_url)
unfolding new
chosen_url = refl

abbrev no_files : Files
no_files p = none

serve-ServedAfter_example :
    ServedAfter crypto vocab vault backing adding founding founders system environ surroundings
      chosen.0 no_files
      (serve crypto vocab vault backing adding founding founders system environ surroundings
        (λ a b. false)
        true
        (some ctl)
        (λ p. false)
        no_files)
unfolding new
serve-ServedAfter_example =
    serve-ServedAfter crypto vocab vault backing adding founding founders system environ
      surroundings vault_opens (λ a b. false) ctl (λ p. false) no_files chosen.0 chosen.1 refl refl
