-- ===== src/Start/Http.antt =====
-- `initHttpServer` of app.go.
use fedbox.Prelude.{
  ◌≡◌, ◌≢◌, ◌↔◌, ◌⊎◌, Bool, true, false, not, ◌&&◌, ◌||◌, Option, none, some, List, [], ◌∷◌, ◌++◌,
  Text, codes, ◌==◌, text_eq, nat_eq, if◌then◌else◌, arith, text_beq_iff,
}
use fedbox.Go.FilePath.{is_abs}
use fedbox.Env.{is_test}
use fedbox.Config.Options.{Options, Environ, System}
use fedbox.Config.Paths.{internal_socket_path}
use fedbox.Config.Listen.{http_listen}

-- The options of the package mux
pub data Setter : Type 0 where
  handler : Setter
  with_tls_cert : Text → Text → Setter
  on_socket on_tcp : Text → Setter
  on_systemd : Setter

-- The address that is listened on: a socket only if its directory exists
listener : (Text → Bool) → Text → List Setter
listener dir_exists path =
    if path == codes "systemd"
    then on_systemd ∷ []
    else if is_abs path
    then (if dir_exists path then on_socket path ∷ [] else [])
    else on_tcp path ∷ []

listeners : (Text → Bool) → List Text → List Setter
unfolding listener
listeners dir_exists [] = []
listeners dir_exists (p ∷ ps) = listener dir_exists p ++ listeners dir_exists ps

-- Whether there is a certificate or a key
abbrev has_cert : Options → Bool
has_cert conf = not (conf.cert_path == []) || not (conf.key_path == [])

tls_setters : Options → List Setter
tls_setters conf =
    if conf.secure && has_cert conf then with_tls_cert conf.cert_path conf.key_path ∷ [] else []

-- The configuration, which is secure only with a certificate or a key
abbrev secured : Options → Options
secured conf = if conf.secure && not (has_cert conf) then record conf { secure = false } else conf

http_listen-nil :
    (conf : Options) → (http_listen conf ≡ []) ↔ ((conf.socket_path ≡ []) × (conf.http_port ≡ 0))
unfolding http_listen
http_listen-nil conf = ground (arith, text_beq_iff conf.socket_path [])

module _ (sys : System) (getenv : Environ) where
  socket_setters : Options → List Setter
  unfolding is_test
  socket_setters conf =
      if is_test conf.env then [] else on_socket (internal_socket_path sys getenv conf) ∷ []

  with_listeners : (Text → Bool) → Options → List Text → Option (List Setter)
  unfolding listeners tls_setters socket_setters
  with_listeners dir_exists conf [] = none
  with_listeners dir_exists conf (p ∷ ps) =
      some ((handler ∷ tls_setters conf) ++ (socket_setters conf ++ listeners dir_exists (p ∷ ps)))

  -- The configuration that is left, the files, and the options of the server, or an error; the old
  -- internal socket is removed before the addresses are looked at. `dir_exists` tells of a socket
  -- whether its directory exists.
  unfoldable pub init_http_server :
      (Text → Bool) → Options → (Text → Bool) → Options × (Text → Bool) × Option (List Setter)
  unfolding is_test with_listeners http_listen
  init_http_server dir_exists conf files = (
    secured conf,
    λ p.
        if not (is_test conf.env) && (p == internal_socket_path sys getenv conf)
        then false
        else files p,
    with_listeners dir_exists conf (http_listen conf),
  )

  with_listeners-none :
      (dir_exists : Text → Bool) (conf : Options) (ps : List Text)
      → (with_listeners dir_exists conf ps ≡ none) ↔ (ps ≡ [])
  unfolding with_listeners
  with_listeners-none dir_exists conf [] = ground arith
  with_listeners-none dir_exists conf (p ∷ ps) = ground arith

  -- There are no options for the server exactly when neither a socket nor a port is configured; and
  -- the configuration that is left is secure exactly when it was before, with a certificate or a key.
  pub init_http_server_iff :
      (dir_exists : Text → Bool) (conf : Options) (files : Text → Bool)
      → (((init_http_server dir_exists conf files).2 ≡ none)
          ↔ ((conf.socket_path ≡ []) × (conf.http_port ≡ 0)))
        × (((init_http_server dir_exists conf files).0.secure ≡ true)
            ↔ ((conf.secure ≡ true) × ((conf.cert_path ≢ []) ⊎ (conf.key_path ≢ []))))
  unfolding init_http_server
  init_http_server_iff dir_exists conf files = (
    ground (arith, with_listeners-none dir_exists conf (http_listen conf), http_listen-nil conf),
    ground (arith, text_beq_iff conf.cert_path [], text_beq_iff conf.key_path []),
  )
