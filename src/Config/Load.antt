-- ===== src/Config/Load.antt =====
-- `Load`: the configuration files, the environment's variables, and the validation.
pub mod Laws
pub mod Forgets
use fedbox.Prelude.{
  ℕ, zero, suc, ◌+◌, ◌-◌, Bool, true, false, not, Option, none, some, List, [], ◌∷◌, ◌++◌, Text,
  codes, ◌==◌, text_eq, contains, if◌then◌else◌,
}
use fedbox.Go.Strings.{to_lower}
use fedbox.Go.FilePath.{join_path}
use fedbox.Go.Decimal.{append_uint, parse_uint32, value}
use fedbox.Env.{EnvType, types, valid_type}
use fedbox.Config.Options.{
  Level, no_level, trace_level, debug_level, info_level, warn_level, error_level, Options, Environ,
  System, getval,
}
use fedbox.Config.Paths.{normalize_config_path}

abbrev pub min_port : ℕ
min_port = 1024

unfoldable pub rand_port : (ℕ → ℕ) → ℕ
rand_port int_n = min_port + int_n (65536 - min_port)

-- The value of `strconv.ParseBool`, which is false beside an error
pub parse_bool : Text → Bool
parse_bool s =
    contains (codes "1" ∷ codes "t" ∷ codes "T" ∷ codes "true" ∷ codes "TRUE" ∷ codes "True" ∷ []) s

parse_level : Text → Level
parse_level lvl =
    if lvl == codes "none"
    then no_level
    else if lvl == codes "trace"
    then trace_level
    else if lvl == codes "debug"
    then debug_level
    else if lvl == codes "warn"
    then warn_level
    else if lvl == codes "error"
    then error_level
    else info_level

-- A duration replaces the old one if it is positive.
positive_or : ℕ → Option ℕ → ℕ
positive_or old none = old
positive_or old (some zero) = old
positive_or old (some (suc d)) = suc d

abbrev pub base_url_of : Bool → Text → Text
base_url_of secure hostname =
    if secure then codes "https://" ++ hostname else codes "http://" ++ hostname

-- A Boolean variable with its own key, which is kept from the general one if it is not set
abbrev unless_disabled : Text → Bool → Bool
unless_disabled v old = if v == [] then old else not (parse_bool v)

-- A port that keeps its old value if the text is empty
abbrev port_of : Text → ℕ → ℕ
port_of v old = if v == [] then old else value (parse_uint32 v)

module _ (sys : System) (getenv : Environ) where
  with_log : Options → Options
  with_log conf = record conf {
    log_level = parse_level (to_lower (getval getenv (codes "LOG_LEVEL") []));
    log_output = getval getenv (codes "LOG_OUTPUT") [];
  }

  with_host : Options → Options
  with_host conf = record conf {
    env = getval getenv (codes "ENV") (codes "dev");
    hostname =
        if conf.hostname == []
        then getval getenv (codes "HOSTNAME") conf.hostname
        else conf.hostname;
    time_out = positive_or conf.time_out (sys.parse_duration (getval getenv (codes "TIME_OUT") []));
    secure = parse_bool (getval getenv (codes "HTTPS") (codes "false"));
  }

  with_base_url : Options → Options
  with_base_url conf = record conf {
    base_url = if conf.hostname == [] then conf.base_url else base_url_of conf.secure conf.hostname;
  }

  with_storage : Options → Options
  with_storage conf =
      let named = record conf {
        storage = to_lower (getval getenv (codes "STORAGE") sys.default_storage);
      } in
      record named {
        storage_path = normalize_config_path sys (getval getenv (codes "STORAGE_PATH") []) named;
      }

  with_caches : Options → Options
  with_caches conf =
      let disabled = parse_bool (getval getenv (codes "DISABLE_CACHE") (codes "false")) in
      record conf {
        storage_cache =
            unless_disabled (getval getenv (codes "DISABLE_STORAGE_CACHE") []) (not disabled);
        request_cache =
            unless_disabled (getval getenv (codes "DISABLE_REQUEST_CACHE") []) (not disabled);
        use_index =
            unless_disabled (getval getenv (codes "DISABLE_STORAGE_INDEX") (codes "false"))
              conf.use_index;
      }

  with_listen : Options → Options
  with_listen conf = record conf {
    socket_path = getval getenv (codes "LISTEN_PATH") [];
    listen_host = getval getenv (codes "LISTEN_HOST") [];
    ssh_port =
        port_of (getval getenv (codes "SSH_PORT") (append_uint (rand_port sys.ssh_draw)))
          conf.ssh_port;
    http_port =
        port_of (getval getenv (codes "HTTP_PORT") (append_uint (rand_port sys.http_draw)))
          conf.http_port;
    mastodon_compatible =
        not (parse_bool (getval getenv (codes "DISABLE_MASTODON_COMPATIBILITY") (codes "false")));
  }

  with_keys : Options → Options
  with_keys conf =
      let keyed = record conf {
        key_path = normalize_config_path sys (getval getenv (codes "KEY_PATH") []) conf;
      } in
      record keyed {
        cert_path = normalize_config_path sys (getval getenv (codes "CERT_PATH") []) keyed;
      }

  unfoldable pub load_from_env : Options → Options
  unfolding with_log with_host with_base_url with_storage with_caches with_listen with_keys
      parse_bool positive_or parse_level
  load_from_env conf =
      with_keys
        (with_listen (with_caches (with_storage (with_base_url (with_host (with_log conf))))))

pub data ConfigError : Type 0 where
  invalid_environment invalid_storage listen_not_valid overload_failed : ConfigError

unfoldable pub validate_options : Environ → Options → Option ConfigError
validate_options getenv opts =
    if opts.env == []
    then some invalid_environment
    else if opts.storage == []
    then some invalid_storage
    else if getval getenv (codes "LISTEN") [] == []
    then none
    else some listen_not_valid

-- The file system as `findConfigs` sees it: `os.OpenRoot`, which may fail, gives a root whose
-- `Stat` tells which names exist; and `godotenv.Overload`, which sets the variables of the listed
-- files, or fails.
pub record ConfigFiles : Type 0 where
  pub open_root : Text → Option (Text → Bool)
  pub overload : List Text → Environ → Option Environ

append_if_file : Text → (Text → Bool) → EnvType → List Text
append_if_file root stat typ =
    let suffixed = codes ".env." ++ typ in
    (if stat (codes ".env") then join_path root (codes ".env") ∷ [] else [])
    ++ (if stat suffixed then join_path root suffixed ∷ [] else [])

append_each : Text → (Text → Bool) → List EnvType → List Text
unfolding append_if_file
append_each root stat [] = []
append_each root stat (typ ∷ typs) = append_if_file root stat typ ++ append_each root stat typs

unfoldable pub blank : Options
blank = record {
  app_name = [];
  version = [];
  env = [];
  log_level = trace_level;
  log_output = [];
  time_out = 0;
  secure = false;
  cert_path = [];
  key_path = [];
  hostname = [];
  listen_host = [];
  ssh_port = 0;
  http_port = 0;
  socket_path = [];
  base_url = [];
  storage = [];
  storage_path = [];
  storage_cache = false;
  request_cache = false;
  use_index = false;
  profile = false;
  mastodon_compatible = false;
  shutting_down = false;
}

module _ (sys : System) (files : ConfigFiles) where
  load_path : Text → EnvType → Option (List Text)
  unfolding blank append_each append_if_file valid_type
  load_path path e =
      let root = normalize_config_path sys path (record blank { env = e }) in
      elim (files.open_root root) [
        | none ↦ none
        | some stat ↦
            some (if valid_type e then append_if_file root stat e else append_each root stat types)
      ]

  first_or : Option (List Text) → Option (List Text) → List Text
  first_or (some configs) other = configs
  first_or none (some configs) = configs
  first_or none none = []

  find_configs : Text → EnvType → List Text
  unfolding load_path first_or
  find_configs path e = first_or (load_path path e) (load_path (codes ".") e)

  overload_all : List Text → Environ → Option Environ
  overload_all [] getenv = some getenv
  overload_all (c ∷ cs) getenv = files.overload (c ∷ cs) getenv

  -- The environment type is read from the variables if the given one is not valid.
  abbrev pub with_known_env : Environ → Options → Options
  with_known_env getenv opts =
      if valid_type opts.env then opts else record opts { env = getval getenv (codes "ENV") [] }

  -- The variables once those of the configuration files are set
  unfoldable pub read_files : Environ → EnvType → Text → Option Environ
  unfolding find_configs overload_all
  read_files getenv e path = overload_all (find_configs path e) getenv

  -- `Load` writes through its pointer also when it fails, so the options are returned with the
  -- error.
  unfoldable pub load :
      Environ → Options → Text → record { opts : Options; error : Option ConfigError }
  load getenv opts path =
      let known = with_known_env getenv opts in
      elim (read_files getenv known.env path) [
        | none ↦ record { opts = known; error = some overload_failed }
        | some getenv' ↦
            let loaded = load_from_env sys getenv' known in
            record { opts = loaded; error = validate_options getenv' loaded }
      ]
