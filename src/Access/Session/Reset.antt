-- ===== src/Access/Session/Reset.antt =====
-- A storage that is reset in a session of SSH: it is the storage of the running server.
use fedbox.Prelude.{◌≡◌, refl, Bool, true, false, Option, none, List, ◌∷◌, Text}
use fedbox.Fault.{Fault, ok}
use fedbox.Vocab.{Vocab}
use fedbox.Config.Options.{System}
use fedbox.Keys.{Crypto, MetadataStore}
use fedbox.Control.Backing.{Backing, store_of}
use fedbox.Control.Addition.{Adding}
use fedbox.Control.Service.{Founding, Base}
use fedbox.Control.Bootstrap.{Founders, reset_cmd}
use fedbox.Control.Bootstrap.Laws.{Opens, reset_cmd-Closed}
use fedbox.Lifecycle.{Backend, App}
use fedbox.Access.Session.{Kong, run_ssh_command, main_tui}

-- The storage of the commands as that of a running server, with a cache and the end of its servers
abbrev pub backend_of :
    (V : Vocab) (M : MetadataStore V)
    → Backing V M
    → (Cache : Type 0) → (Cache → Cache)
    → Option Fault
    → Backend
backend_of V M B Cache delete_all stopped = record {
  Storage = M.State;
  Cache = Cache;
  open_storage = B.open_storage;
  close_storage = B.close_storage;
  is_open = B.is_open;
  delete_all = delete_all;
  stop_server = stopped;
}

module _ (C : Crypto) (V : Vocab) (M : MetadataStore V) (B : Backing V M)
    (A : Adding V (store_of V M B)) (F : Founding V) (W : Founders V M) (sys : System)
    (Cache : Type 0) (delete_all : Cache → Cache) (stopped : Option Fault) where
  abbrev pub ServerApp : Type 0
  ServerApp = App (backend_of V M B Cache delete_all stopped)

  -- The `Base` of a command in a session has the configuration, the service and the storage of the
  -- server.
  abbrev session_base : V.Item → Option C.PrivateKey → Base C V M B A F
  session_base service key = record { service = service; private_key = key; has_storage = true }

  -- `ResetCmd` in a session
  unfoldable pub reset_in_session :
      V.Item → Option C.PrivateKey → ServerApp → ServerApp × Option Fault
  reset_in_session service key f =
      let (ctl, s, e) = reset_cmd C V M B A F W sys f.conf (session_base service key) f.storage in
      (record f { storage = s }, e)

  -- If the storage opens and closes as is documented, then a session whose command is parsed as the
  -- reset of the storage, and run by its `Run`, leaves the server with a closed storage and in its
  -- other modes, in maintenance or not, where the storage could be opened, also if the reset fails.
  pub main_tui_reset :
      (O : Opens V M B W) (K : Kong ServerApp) (cmd : K.Command) (service : V.Item)
      (key : Option C.PrivateKey) (active : Bool) (arg : Text) (args : List Text) (f : ServerApp)
      → K.new_parser ≡ none
      → K.parse (arg ∷ args) ≡ ok cmd
      → ((g : ServerApp) → K.run cmd g ≡ reset_in_session service key g)
      → (B.open_storage f.storage).1 ≡ none
      → let f' = (main_tui K active (arg ∷ args) f).0 in
        (B.is_open f'.storage ≡ false)
        × (f'.maintenance_mode ≡ f.maintenance_mode)
        × (f'.shutting_down ≡ f.shutting_down)
        × (f'.debug_mode ≡ f.debug_mode)
  unfolding main_tui run_ssh_command reset_in_session
  main_tui_reset O K cmd service key active arg args f parser parsed runs opens =
      rw (parser, parsed, runs f, main_tui, run_ssh_command)
        (
          reset_cmd-Closed C V M B A F W sys O f.conf (session_base service key) f.storage opens,
          refl,
          refl,
          refl,
        )
