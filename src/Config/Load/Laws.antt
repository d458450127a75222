-- ===== src/Config/Load/Laws.antt =====
-- What every loaded configuration satisfies: the ports, the address and the caches.
use fedbox.Prelude.{
  ℕ, ◌-◌, ◌≤◌, ◌<◌, ◌≡◌, ◌≢◌, ◌↔◌, none, some, [], Text, codes, arith, text_eq, text_beq_iff,
}
use fedbox.Go.Decimal.{append_uint, max_uint32}
use fedbox.Go.Decimal.Laws.{parse_uint32-append_uint, append_uint-ne-nil, value-parse_uint32-le}
use fedbox.Config.Options.{Options, Environ, System, pref_key, getval}
use fedbox.Config.Load.{
  min_port, rand_port, port_of, load_from_env, validate_options, with_known_env, read_files, load,
  ConfigFiles, invalid_environment,
}

rand_port-le :
    (int_n : ℕ → ℕ)
    → ((n : ℕ) → 0 < n → int_n n < n)
    → (min_port ≤ rand_port int_n) × (rand_port int_n ≤ 65535)
unfolding rand_port
rand_port-le int_n within = omega (arith, within (65536 - min_port) (omega arith))

port_of-le : (v : Text) (old : ℕ) → old ≤ max_uint32 → port_of v old ≤ max_uint32
port_of-le v old h = ground (arith, value-parse_uint32-le v)

port_of-append_uint : (n old : ℕ) → n ≤ max_uint32 → port_of (append_uint n) old ≡ n
port_of-append_uint n old h =
    ground
      (arith, parse_uint32-append_uint n h, append_uint-ne-nil n, text_beq_iff (append_uint n) [])

-- A variable is unset if neither its name nor its prefixed name has a value.
abbrev IsUnset : Environ → Text → Type 0
IsUnset getenv name = (getenv (pref_key name) ≡ []) × (getenv name ≡ [])

getval_unset :
    (getenv : Environ) (name def : Text) → IsUnset getenv name → getval getenv name def ≡ def
unfolding getval
getval_unset getenv name def (pf, p) = rw (p, pf)

port_of_unset :
    (getenv : Environ) (name : Text) (int_n : ℕ → ℕ) (old : ℕ)
    → ((n : ℕ) → 0 < n → int_n n < n)
    → IsUnset getenv name
    → port_of (getval getenv name (append_uint (rand_port int_n))) old ≡ rand_port int_n
port_of_unset getenv name int_n old within unset =
    rw (getval_unset getenv name _ unset)
      (port_of-append_uint (rand_port int_n) old (omega (arith, (rand_port-le int_n within).1)))

abbrev DrawsWithin : System → Type 0
DrawsWithin sys = ((n : ℕ) → 0 < n → sys.ssh_draw n < n) × ((n : ℕ) → 0 < n → sys.http_draw n < n)

-- Whatever the variables hold, both ports of a loaded configuration fit 32 bits, if they did before.
load_from_env_ports :
    (sys : System) (getenv : Environ) (conf : Options)
    → conf.ssh_port ≤ max_uint32
    → conf.http_port ≤ max_uint32
    → let loaded = load_from_env sys getenv conf in
      (loaded.ssh_port ≤ max_uint32) × (loaded.http_port ≤ max_uint32)
unfolding load_from_env
load_from_env_ports sys getenv conf ssh http =
    (port_of-le _ conf.ssh_port ssh, port_of-le _ conf.http_port http)

-- If the variables of both ports are unset and `rand.IntN` keeps to its range, the ports are the
-- ones drawn, from 1024 to 65535: printing and reading them back loses nothing.
pub load_from_env_drawn :
    (sys : System) (getenv : Environ) (conf : Options)
    → DrawsWithin sys
    → IsUnset getenv (codes "SSH_PORT")
    → IsUnset getenv (codes "HTTP_PORT")
    → let loaded = load_from_env sys getenv conf in
      (loaded.ssh_port ≡ rand_port sys.ssh_draw)
      × (loaded.http_port ≡ rand_port sys.http_draw)
      × (min_port ≤ loaded.ssh_port)
      × (loaded.ssh_port ≤ 65535)
      × (min_port ≤ loaded.http_port)
      × (loaded.http_port ≤ 65535)
unfolding load_from_env
load_from_env_drawn sys getenv conf (ssh_within, http_within) ssh http =
    let s = port_of_unset getenv _ sys.ssh_draw conf.ssh_port ssh_within ssh in
    let h = port_of_unset getenv _ sys.http_draw conf.http_port http_within http in
    (
      s,
      h,
      rw s (rand_port-le sys.ssh_draw ssh_within).0,
      rw s (rand_port-le sys.ssh_draw ssh_within).1,
      rw h (rand_port-le sys.http_draw http_within).0,
      rw h (rand_port-le sys.http_draw http_within).1,
    )

getval-ne-nil : (getenv : Environ) (name def : Text) → def ≢ [] → getval getenv name def ≢ []
unfolding getval
getval-ne-nil getenv name def h =
    ground (arith, text_beq_iff (getenv (pref_key name)) [], text_beq_iff (getenv name) [])

loaded_env-ne-nil :
    (sys : System) (getenv : Environ) (conf : Options) → (load_from_env sys getenv conf).env ≢ []
unfolding load_from_env
loaded_env-ne-nil sys getenv conf = getval-ne-nil getenv (codes "ENV") (codes "dev") (λ h. cc)

validate_options_iff :
    (getenv : Environ) (opts : Options)
    → opts.env ≢ []
    → (validate_options getenv opts ≢ some invalid_environment)
      × ((validate_options getenv opts ≡ none)
          ↔ ((opts.storage ≢ []) × (getval getenv (codes "LISTEN") [] ≡ [])))
unfolding validate_options
validate_options_iff getenv opts h = ground (
  arith,
  text_beq_iff opts.env [],
  text_beq_iff opts.storage [],
  text_beq_iff (getval getenv (codes "LISTEN") []) [],
)

-- Once the configuration files are read, loading never reports an invalid environment, since an
-- empty one has become "dev" before the test; and it reports nothing exactly when the storage is
-- named and the variable LISTEN has no value.
load_reports :
    (sys : System) (files : ConfigFiles) (getenv getenv' : Environ) (opts : Options) (path : Text)
    → read_files sys files getenv (with_known_env sys files getenv opts).env path ≡ some getenv'
    → let result = load sys files getenv opts path in
      (result.error ≢ some invalid_environment)
      × ((result.error ≡ none)
          ↔ ((result.opts.storage ≢ []) × (getval getenv' (codes "LISTEN") [] ≡ [])))
unfolding load
load_reports sys files getenv getenv' opts path read =
    rw (read, load)
      (validate_options_iff getenv' _
        (loaded_env-ne-nil sys getenv' (with_known_env sys files getenv opts)))
