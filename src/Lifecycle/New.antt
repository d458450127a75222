-- ===== src/Lifecycle/New.antt =====
-- app.go: `New`, which opens the storage and sets a server up.
pub mod Laws
use fedbox.Prelude.{
  ℕ, Bool, true, false, not, ◌||◌, Option, none, some, List, [], ◌∷◌, ◌++◌, Text, if◌then◌else◌,
}
use fedbox.Fault.{Fault, Result, ok, err, failed, annotated}
use fedbox.Vocab.{Iri}
use fedbox.Env.{is_dev, is_test}
use fedbox.Config.Options.{Options, Environ, System}
use fedbox.Keys.{key_type_ed25519, key_type_rsa}
use fedbox.Start.{load_service_actor}
use fedbox.Start.Http.{Setter, init_http_server}
use fedbox.Access.Server.{SshSetter, init_ssh_server}
use fedbox.Lifecycle.{Backend, App}

-- The options of the servers together, of the package servermux: a time to wait, and the servers
pub data MuxSetter : Type 0 where
  graceful_wait : ℕ → MuxSetter
  http_server : List Setter → MuxSetter
  ssh_server : List SshSetter → MuxSetter

-- What `New` takes from the storage, the packages servermux and wish and the file system
pub record Assembly (B : Backend) : Type 1 where
  pub Actor : Type 0
  pub Key : Type 0
  -- `DefaultServiceIRI`, `LoadActor` and `LoadKey`
  pub service_iri : Text → Iri
  pub load_actor : B.Storage → Iri → Result Actor
  pub load_key : B.Storage → Iri → Result Key
  pub saves_metadata : Bool
  pub new_cache : Bool → B.Cache
  pub dir_exists : Text → Bool
  pub marshal_pkcs8 : Key → Result Text
  pub encode_pem : Text → Text
  pub new_http_server : List Setter → Option Fault
  pub new_ssh_server : List SshSetter → Option Fault
  pub mux : List MuxSetter → Option Fault

module _ (B : Backend) (A : Assembly B) (sys : System) (getenv : Environ) where
  -- `Base`; a missing storage is nil.
  pub record Ctl : Type 0 where
    pub storage : Option B.Storage
    pub conf : Options
    pub service : Option A.Actor
    pub private_key : Option A.Key

  -- `FedBOX`, with its service, the type of the keys that it generates and its servers
  pub record Server : Type 0 where
    pub app : App B
    pub service : Option A.Actor
    pub private_key : Option A.Key
    pub key_type : Option Text
    pub servers : List MuxSetter

  -- A server, or an error, with the storage that is left, if there is one, and the files
  pub data Outcome : Type 0 where
    server_made : Server → Outcome
    no_server : Option B.Storage → (Text → Bool) → Fault → Outcome

  key_type_of : Options → Option Text
  key_type_of conf =
      if A.saves_metadata
      then some (if conf.mastodon_compatible then key_type_rsa else key_type_ed25519)
      else none

  -- An error of the service is only logged.
  loaded_service :
      Options → Option A.Actor → Option A.Key → B.Storage → Option A.Actor × Option A.Key
  unfolding load_service_actor
  loaded_service conf actor key s =
      elim (load_service_actor A.service_iri (A.load_actor s) (A.load_key s) conf) [
        | err e ↦ (actor, key)
        | ok (actor', key') ↦ (some actor', some key')
      ]

  graceful : Options → List MuxSetter
  unfolding is_dev is_test
  graceful conf =
      if is_test conf.env || is_dev conf.env then [] else graceful_wait conf.time_out ∷ []

  -- An error of the SSH server is only logged.
  ssh_setters : Options → Option A.Key → List MuxSetter
  unfolding init_ssh_server
  ssh_setters conf key = elim (init_ssh_server A.marshal_pkcs8 A.encode_pem conf key) [
    | none ↦ []
    | some fns ↦ elim (A.new_ssh_server fns) [ none ↦ ssh_server fns ∷ [] | some e ↦ [] ]
  ]

  app_of : Options → Options → B.Storage → (Text → Bool) → App B
  unfolding is_dev
  app_of conf conf' s files = record {
    storage = s;
    caches = A.new_cache conf.request_cache;
    conf = conf';
    maintenance_mode = false;
    shutting_down = false;
    debug_mode = is_dev conf.env;
    files = files;
  }

  -- The servers are joined; `conf` is the configuration before that of the HTTP server.
  muxed :
      Options
      → Options
      → B.Storage
      → (Text → Bool)
      → Option A.Actor × Option A.Key
      → List MuxSetter
      → Outcome
  unfolding app_of key_type_of
  muxed conf conf' s files (actor, key) servers = elim (A.mux servers) [
    | some e ↦ no_server (some s) files e
    | none ↦ server_made (record {
      app = app_of conf conf' s files;
      service = actor;
      private_key = key;
      key_type = key_type_of conf;
      servers = servers;
    })
  ]

  with_http :
      Options
      → B.Storage
      → Option A.Actor × Option A.Key
      → Options × (Text → Bool) × Option (List Setter)
      → Outcome
  unfolding muxed graceful ssh_setters
  with_http conf s service (conf', files, none) = no_server (some s) files failed
  with_http conf s service (conf', files, some fns) = elim (A.new_http_server fns) [
    | some e ↦ no_server (some s) files e
    | none ↦
        muxed conf conf' s files service
          (graceful conf ++ (http_server fns ∷ ssh_setters conf' service.1))
  ]

  with_opened : Ctl → (Text → Bool) → B.Storage × Option Fault → Outcome
  unfolding with_http loaded_service init_http_server
  with_opened ctl files (s, some e) = no_server (some s) files (annotated e)
  with_opened ctl files (s, none) =
      with_http ctl.conf s (loaded_service ctl.conf ctl.service ctl.private_key s)
        (init_http_server sys getenv A.dir_exists ctl.conf files)

  -- `New`, from an initializer and the files that exist
  unfoldable pub new : Option Ctl → (Text → Bool) → Outcome
  unfolding with_opened
  new none files = no_server none files failed
  new (some ctl) files = elim ctl.storage [
    | none ↦ no_server none files failed
    | some s ↦ with_opened ctl files (B.open_storage s)
  ]
