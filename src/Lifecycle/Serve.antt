-- ===== src/Lifecycle/Serve.antt =====
-- cmd-serve.go: `Serve.Run`, which makes a server, bootstraps its service and runs it.
pub mod Laws
use fedbox.Prelude.{Bool, true, Option, none, some, List, Text}
use fedbox.Fault.{Fault, Result, annotated}
use fedbox.Vocab.{Vocab, Iri}
use fedbox.Config.Options.{Options, Environ, System}
use fedbox.Config.Pid.{Files}
use fedbox.Keys.{Crypto, MetadataStore}
use fedbox.Control.Backing.{Backing, store_of}
use fedbox.Control.Addition.{Adding}
use fedbox.Control.Service.{Founding, Base}
use fedbox.Control.Bootstrap.{Founders}
use fedbox.Control.Credentials.{Exit, exit_ok, exit_panic, serve_bootstrap}
use fedbox.Start.Http.{Setter}
use fedbox.Access.Server.{SshSetter}
use fedbox.Access.Session.Reset.{backend_of}
use fedbox.Lifecycle.{Backend}
use fedbox.Lifecycle.New.{Assembly, MuxSetter, Ctl, Server, Outcome, server_made, no_server, new}

-- What a server takes besides the storage: its cache, the packages of servers, the loading of the
-- service, and the value of an actor that was never set
pub record Surroundings (C : Crypto) (V : Vocab) (M : MetadataStore V) : Type 1 where
  pub Cache : Type 0
  pub new_cache : Bool → Cache
  pub delete_all : Cache → Cache
  pub stop_server : Option Fault
  pub service_iri : Text → Iri
  pub load_actor : M.State → Iri → Result V.Item
  pub load_key : M.State → Iri → Result C.PrivateKey
  pub saves_metadata : Bool
  pub dir_exists : Text → Bool
  pub marshal_pkcs8 : C.PrivateKey → Result Text
  pub encode_pem : Text → Text
  pub new_http_server : List Setter → Option Fault
  pub new_ssh_server : List SshSetter → Option Fault
  pub mux : List MuxSetter → Option Fault
  pub zero_actor : V.Item

module _ (C : Crypto) (V : Vocab) (M : MetadataStore V) (B : Backing V M)
    (A : Adding V (store_of V M B)) (F : Founding V) (W : Founders V M) (sys : System)
    (getenv : Environ) (R : Surroundings C V M) where
  abbrev pub backend_with : Backend
  backend_with = backend_of V M B R.Cache R.delete_all R.stop_server

  abbrev pub assembly_with : Assembly backend_with
  assembly_with = record {
    Actor = V.Item;
    Key = C.PrivateKey;
    service_iri = R.service_iri;
    load_actor = R.load_actor;
    load_key = R.load_key;
    saves_metadata = R.saves_metadata;
    new_cache = R.new_cache;
    dir_exists = R.dir_exists;
    marshal_pkcs8 = R.marshal_pkcs8;
    encode_pem = R.encode_pem;
    new_http_server = R.new_http_server;
    new_ssh_server = R.new_ssh_server;
    mux = R.mux;
  }

  abbrev pub Made : Type 0
  Made = Server backend_with assembly_with sys getenv

  -- The server is run, there is none, or the program panics.
  pub data Served : Type 0 where
    runs : Made → Files → Served
    unable : Fault → Served
    panics : Served

  abbrev actor_or_zero : Option V.Item → V.Item
  actor_or_zero none = R.zero_actor
  actor_or_zero (some act) = act

  -- The server shares its `Base` with the bootstrap.
  abbrev pub base_of : Made → Base C V M B A F
  base_of srv = record {
    service = actor_or_zero srv.service;
    private_key = srv.private_key;
    has_storage = true;
  }

  bootstrapped_server : Made → Base C V M B A F × M.State × Files × Exit C V M B A F W sys → Served
  bootstrapped_server srv (ctl, s, files, exit_panic) = panics
  bootstrapped_server srv (ctl, s, files, exit_ok) =
      runs
        (record srv {
          app = record srv.app { storage = s };
          service = some ctl.service;
          private_key = ctl.private_key;
        })
        files

  with_server :
      (Iri → Text → Bool) → Bool → Files → Outcome backend_with assembly_with sys getenv → Served
  unfolding bootstrapped_server serve_bootstrap
  with_server equal asked files (no_server s left e) = unable (annotated e)
  with_server equal asked files (server_made srv) = bootstrapped_server srv (
      serve_bootstrap C V M B A F W sys equal asked srv.app.conf (base_of srv) files
        srv.app.storage)

  -- `Serve.Run` up to `Run`, with its flag, the files that exist and the contents of those of keys
  -- and passwords
  unfoldable pub serve :
      (Iri → Text → Bool)
      → Bool
      → Option (Ctl backend_with assembly_with sys getenv)
      → (Text → Bool)
      → Files
      → Served
  unfolding with_server new
  serve equal asked ctl exist files =
      with_server equal asked files (new backend_with assembly_with sys getenv ctl exist)
