-- ===== src/Start/Laws.antt =====
-- What becomes of the flags of a command.
use fedbox.Prelude.{
  ◌≡◌, ◌≢◌, sym, ℕ, Bool, some, Text, [], codes, ◌==◌, nat_eq, if◌then◌else◌, arith, Bool-cases,
  Option-cases, inl, inr,
}
use fedbox.Env.{EnvType, valid_type}
use fedbox.Config.Options.{Level, Options, Environ, System, getval, warn_level}
use fedbox.Config.Load.{ConfigFiles, load, read_files}
use fedbox.Config.Load.Forgets.{from_command_line, load_from_env-from_command_line}
use fedbox.Start.{Flags, Resources, flag_options, setup, started, init_control}

-- The flags of a URL, an environment, a verbosity and a path
abbrev pub flags : Text → Bool → Text → EnvType → ℕ → Text → Flags
flags host is_https text e verbose path = record {
  url = some (record { hostname = host; is_https = is_https; text = text });
  env = e;
  verbose = verbose;
  path = path;
}

module _ (sys : System) (files : ConfigFiles) (R : Resources) where
  setup_same :
      (getenv : Environ) (conf : Options) (l : Level) (secure : Bool) (url : Text)
      → conf.hostname ≢ []
      → setup sys files R getenv (from_command_line conf conf.env l secure url)
        ≡ setup sys files R getenv conf
  unfolding setup load started from_command_line
  setup_same getenv conf l secure url h = elim (Bool-cases (valid_type conf.env)) [
    | inl valid ↦ elim (Option-cases (read_files sys files getenv conf.env conf.storage_path)) [
      | inl unread ↦ ground arith
      | inr (getenv', read) ↦
          ground (arith, load_from_env-from_command_line sys getenv' conf conf.env l secure url h)
    ]
    | inr other ↦
        let e = getval getenv (codes "ENV") [] in
        elim (Option-cases (read_files sys files getenv e conf.storage_path)) [
          | inl unread ↦ ground arith
          | inr (getenv', read) ↦ ground (
            arith,
            load_from_env-from_command_line sys getenv' (record conf { env = e }) e l secure url h,
          )
        ]
  ]

  -- Of a URL with a host only the host has an effect on the configuration of a command, and none of
  -- its scheme, the rest of the URL and the verbosity has.
  init_control_host :
      (getenv : Environ) (version host : Text) (s s' : Bool) (text text' : Text) (e : EnvType)
      (verbose verbose' : ℕ) (path : Text)
      → host ≢ []
      → init_control sys files R getenv version (flags host s text e verbose path)
        ≡ init_control sys files R getenv version (flags host s' text' e verbose' path)
  unfolding init_control flag_options from_command_line
  init_control_host getenv version host s s' text text' e verbose verbose' path h =
      let conf = flag_options sys files R version (flags host s text e verbose path) in
      let level : ℕ → Level = λ v. if v == 0 then warn_level else R.less warn_level v in
      sym (setup_same getenv conf (level verbose') s' text' h)
