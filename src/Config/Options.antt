-- ===== src/Config/Options.antt =====
-- `Options`, the environment's variables, and what the package takes from the system around it.
use fedbox.Prelude.{ℕ, Bool, Option, List, [], ◌++◌, Text, codes, ◌==◌, text_eq, if◌then◌else◌}
use fedbox.Go.Strings.{to_upper}
use fedbox.Env.{EnvType}

pub data Level : Type 0 where
  no_level trace_level debug_level info_level warn_level error_level : Level

pub record Options : Type 0 where
  pub app_name : Text
  pub version : Text
  pub env : EnvType
  pub log_level : Level
  pub log_output : Text
  pub time_out : ℕ
  pub secure : Bool
  pub cert_path : Text
  pub key_path : Text
  pub hostname : Text
  pub listen_host : Text
  pub ssh_port : ℕ
  pub http_port : ℕ
  pub socket_path : Text
  pub base_url : Text
  pub storage : Text
  pub storage_path : Text
  pub storage_cache : Bool
  pub request_cache : Bool
  pub use_index : Bool
  pub profile : Bool
  pub mastodon_compatible : Bool
  pub shutting_down : Bool

-- `os.Getenv`, which is the empty text where a variable is not set
abbrev pub Environ : Type 0
Environ = Text → Text

-- `os.UserHomeDir`, the working directory, two draws of `rand.IntN`, `time.ParseDuration` in
-- nanoseconds (nothing for a text that it refuses or a negative duration), `storage.Default`, and
-- `sort.Slice` of more than twelve elements
pub record System : Type 0 where
  pub home : Text
  pub cwd : Text
  pub ssh_draw : ℕ → ℕ
  pub http_draw : ℕ → ℕ
  pub parse_duration : Text → Option ℕ
  pub default_storage : Text
  pub pdq_sort : (ℕ → ℕ → Bool) → List Text → List Text

abbrev prefix : Text
prefix = codes "fedbox"

-- `Prefix` is never empty.
unfoldable pub pref_key : Text → Text
unfolding to_upper
pref_key k = to_upper prefix ++ (codes "_" ++ k)

unfoldable pub getval : Environ → Text → Text → Text
unfolding pref_key
getval getenv name def =
    let pf = getenv (pref_key name) in
    let p = getenv name in if p == [] then (if pf == [] then def else pf) else p
