-- ===== src/Config/Load/Forgets.antt =====
-- What loading replaces: options that the command line has set before it.
use fedbox.Prelude.{
  ◌≡◌, refl, ◌≢◌, ◌⊎◌, inl, inr, Bool-cases, Bool, [], Text, codes, ◌==◌, text_eq, arith,
  text_beq_iff,
}
use fedbox.Env.{EnvType}
use fedbox.Config.Options.{Level, Options, Environ, System, getval}
use fedbox.Config.Load.{load_from_env, base_url_of, parse_bool}

-- The options that `InitControl` fills in from `--env`, `--verbose` and `--url`, the host apart.
unfoldable pub from_command_line : Options → EnvType → Level → Bool → Text → Options
from_command_line o e l secure url = record o {
  env = e;
  log_level = l;
  secure = secure;
  base_url = url;
}

-- For options with a host, loading discards the environment, the log level, the scheme and the
-- base URL that were set before: the result is the same whatever they were.
pub load_from_env-from_command_line :
    (sys : System) (getenv : Environ) (conf : Options) (e : EnvType) (l : Level) (secure : Bool)
    (url : Text)
    → conf.hostname ≢ []
    → load_from_env sys getenv (from_command_line conf e l secure url)
      ≡ load_from_env sys getenv conf
unfolding load_from_env from_command_line
load_from_env-from_command_line sys getenv conf e l secure url h =
    ground (arith, text_beq_iff conf.hostname [])

-- The base URL of a loaded configuration with a host is built from that host and the scheme that
-- the variable HTTPS asks for.
load_from_env_address :
    (sys : System) (getenv : Environ) (conf : Options)
    → let loaded = load_from_env sys getenv conf in
      (loaded.secure ≡ parse_bool (getval getenv (codes "HTTPS") (codes "false")))
      × ((loaded.hostname ≡ []) ⊎ (loaded.base_url ≡ base_url_of loaded.secure loaded.hostname))
unfolding load_from_env
load_from_env_address sys getenv conf = (
  refl,
  elim (Bool-cases ((load_from_env sys getenv conf).hostname == [])) [
    | inl empty ↦ inl ((text_beq_iff _ []).0 empty)
    | inr host ↦ inr (rw host)
  ],
)
