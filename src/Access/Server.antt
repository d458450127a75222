-- ===== src/Access/Server.antt =====
-- ssh.go: `initSSHServer`, which says how the SSH server is set up.
use fedbox.Prelude.{Option, none, some, List, [], ◌∷◌, Text, ◌==◌, nat_eq, if◌then◌else◌}
use fedbox.Fault.{Result, ok, err}
use fedbox.Config.Options.{Options}
use fedbox.Config.Listen.{ssh_listen}

-- The options of the package wish; the handlers are those of this repository.
pub data SshSetter : Type 0 where
  with_public_key_auth with_password_auth with_middleware : SshSetter
  with_address with_host_key_pem : Text → SshSetter

-- The packages crypto/x509 and encoding/pem
module _ {κ} {Key : Type κ} (marshal_pkcs8 : Key → Result Text) (encode_pem : Text → Text) where
  -- The host key is the private key of the service, if there is one that can be encoded.
  host_key : Option Key → List SshSetter
  host_key none = []
  host_key (some key) = elim (marshal_pkcs8 key) [
    | err e ↦ []
    | ok enc ↦ with_host_key_pem (encode_pem enc) ∷ []
  ]

  on_first_address : Option Key → List Text → Option (List SshSetter)
  unfolding host_key
  on_first_address key [] = none
  on_first_address key (listen ∷ rest) = some (
      with_public_key_auth
      ∷ with_password_auth
      ∷ with_middleware
      ∷ with_address listen
      ∷ host_key key)

  -- The options that `m.SSHServer` is called with, and nothing where there is no SSH server
  unfoldable pub init_ssh_server : Options → Option Key → Option (List SshSetter)
  unfolding on_first_address
  init_ssh_server conf key =
      if conf.ssh_port == 0 then none else on_first_address key (ssh_listen conf)
