-- ===== src/Start.antt =====
-- control.go: the options and the storage that a command starts with.
pub mod Http
pub mod Stdin
pub mod Laws
use fedbox.Prelude.{
  ℕ, Bool, true, false, not, ◌&&◌, Option, none, some, Text, [], codes, ◌==◌, text_eq, nat_eq,
  if◌then◌else◌,
}
use fedbox.Env.{EnvType}
use fedbox.Fault.{Fault, Result, ok, err, failed, annotated}
use fedbox.Vocab.{Vocab, Iri}
use fedbox.Config.Options.{Level, warn_level, Options, Environ, System}
use fedbox.Config.Load.{ConfigFiles, ConfigError, blank, load}

-- What `InitControl` reads of a `url.URL`
pub record Target : Type 0 where
  pub hostname : Text
  pub is_https : Bool
  pub text : Text

-- The flags of `CTL`
pub record Flags : Type 0 where
  pub url : Option Target
  pub env : EnvType
  pub verbose : ℕ
  pub path : Text

-- The packages lw and storage-all, and the files
pub record Resources : Type 0 where
  -- a level less a number
  pub less : Level → ℕ → Level
  pub can_open : Text → Bool
  -- `StorageInitFns` and `storage.New`
  pub new_storage : Options → Option Fault

abbrev with_url : Option Target → Options → Options
with_url none opt = opt
with_url (some u) opt = record opt { hostname = u.hostname; secure = u.is_https; base_url = u.text }

module _ (sys : System) (files : ConfigFiles) (R : Resources) where
  -- The options of the flags, for a version of the program
  unfoldable pub flag_options : Text → Flags → Options
  unfolding blank
  flag_options version c = with_url c.url (record blank {
    app_name = codes "FedBOX";
    version = version;
    env = c.env;
    storage_path = c.path;
    log_level = if c.verbose == 0 then warn_level else R.less warn_level c.verbose;
  })

  abbrev with_path : Text → Options → Options
  with_path path conf =
      if conf.storage_path == [] && not (path == [])
      then record conf { storage_path = path }
      else conf

  started : Text → Options → Option ConfigError → Result Options
  started path conf (some e) = err (annotated failed)
  started path conf none =
      if not (conf.log_output == []) && not (R.can_open conf.log_output)
      then err failed
      else elim (R.new_storage (with_path path conf)) [
        | some e ↦ err e
        | none ↦ ok (with_path path conf)
      ]

  -- `setup` gives the configuration of the command.
  unfoldable pub setup : Environ → Options → Result Options
  unfolding started
  setup getenv conf =
      let loaded = load sys files getenv conf conf.storage_path in
      started conf.storage_path loaded.opts loaded.error

  unfoldable pub init_control : Environ → Text → Flags → Result Options
  unfolding flag_options setup
  init_control getenv version c = setup getenv (flag_options version c)

-- `LoadServiceActor`: the service with its private key, by `DefaultServiceIRI`, `LoadActor` and
-- `LoadKey`
unfoldable pub load_service_actor {ℓ κ} :
    {A : Type ℓ} {K : Type κ}
    → (Text → Iri)
    → (Iri → Result A)
    → (Iri → Result K)
    → Options
    → Result (A × K)
load_service_actor service_iri load_actor load_key conf =
    if conf.base_url == [] then err failed else elim (load_actor (service_iri conf.base_url)) [
      | err e ↦ err e
      | ok actor ↦ elim (load_key (service_iri conf.base_url)) [
        | err e ↦ err e
        | ok key ↦ ok (actor, key)
      ]
    ]

-- `loadPwFromStdin`, for the two passwords that are typed
unfoldable pub load_pw_from_stdin : Text → Text → Result Text
load_pw_from_stdin pw1 pw2 =
    if pw1 == [] then err failed else if not (pw1 == pw2) then err failed else ok pw1
