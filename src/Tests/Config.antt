-- ===== src/Tests/Config.antt =====
-- The theorems on environment types and the configuration, at concrete options.
use fedbox.Prelude.{◌≤◌, ◌≡◌, refl, true, none, codes, arith}
use fedbox.Env.{prod}
use fedbox.Config.Options.{pref_key, debug_level}
use fedbox.Config.Load.{min_port, rand_port, load_from_env}
use fedbox.Config.Load.Laws.{load_from_env_drawn}
use fedbox.Config.Load.Forgets.{from_command_line, load_from_env-from_command_line}
use fedbox.Config.Pid.{Files}
use fedbox.Tests.World.{system, environ, options}

load_from_env-from_command_line_example :
    load_from_env system environ
      (from_command_line options prod debug_level true (codes "https://x.org:8443"))
    ≡ load_from_env system environ options
load_from_env-from_command_line_example =
    load_from_env-from_command_line system environ options prod debug_level true
      (codes "https://x.org:8443") (λ e. cc)

abbrev no_files : Files
no_files p = none

load_from_env_drawn_example :
    let loaded = load_from_env system environ options in
    (loaded.ssh_port ≡ 33280)
    × (loaded.http_port ≡ 22528)
    × (min_port ≤ loaded.ssh_port)
    × (loaded.ssh_port ≤ 65535)
    × (min_port ≤ loaded.http_port)
    × (loaded.http_port ≤ 65535)
unfolding rand_port pref_key
load_from_env_drawn_example =
    load_from_env_drawn system environ options ((λ n h. omega arith), (λ n h. omega arith))
      (refl, refl) (refl, refl)
