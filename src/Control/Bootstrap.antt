-- ===== src/Control/Bootstrap.antt =====
-- `Bootstrap` of base.go, and cmd-bootstrap.go.
pub mod Laws
use fedbox.Prelude.{
  Bool, true, false, not, ◌&&◌, Option, none, some, List, [], ◌∷◌, ◌++◌, Text, codes, ◌==◌, text_eq,
  if◌then◌else◌,
}
use fedbox.Go.FilePath.{join_path}
use fedbox.Fault.{Fault, Result, ok, err, failed, annotated}
use fedbox.Vocab.{Vocab, Iri}
use fedbox.Config.Options.{Options, System}
use fedbox.Config.Pid.{Files}
use fedbox.Config.Storage.{Directories, InitFn, storage_init_fns, base_storage_path}
use fedbox.Keys.{
  Crypto, MetadataStore, KeyPair, key_type_ed25519, key_type_rsa, generate_key_pair,
  key_pair_from_private_bytes,
}
use fedbox.Control.Backing.{Backing, store_of}
use fedbox.Control.Addition.{Adding}
use fedbox.Control.Service.{Founding, Base, create_service}

-- The package storage-all, the service that `Self` makes of a base URL, and what `getPwAndKey` calls
pub record Founders (V : Vocab) (M : MetadataStore V) : Type 0 where
  pub directories : Directories M.State
  -- `Bootstrap`, `New` and `Clean`
  pub bootstrap_storage : M.State → List InitFn → M.State × Option Fault
  pub new_storage : M.State → List InitFn → M.State × Option Fault
  pub clean_storage : M.State → List InitFn → M.State × Option Fault
  -- `Is` of an error with `ErrNotExist`
  pub is_not_exist : Fault → Bool
  pub self : Text → V.Item
  -- `TrimSpace`, which gives nothing where only spaces are left, and `Text`
  pub trim_space : Text → Option Text
  pub random_text : Text

-- What `Bootstrap` does: it returns, with an error or without, or it panics on a missing key.
pub data Booted : Type 0 where
  booted : Booted
  boot_failed : Fault → Booted
  boot_panic : Booted

module _ (C : Crypto) (V : Vocab) (M : MetadataStore V) (B : Backing V M)
    (A : Adding V (store_of V M B)) (F : Founding V) (W : Founders V M) (sys : System) where
  -- The fields of `Base`, the state of the storage and the error
  abbrev pub Run : Type 0
  Run = Base C V M B A F × M.State × Option Fault

  annotate : Option Fault → Option Fault
  annotate none = none
  annotate (some e) = some (annotated e)

  -- The storage is closed when the function returns.
  closed_after : Run → Run
  unfolding annotate
  closed_after (ctl, s, e) = (ctl, B.close_storage s, annotate e)

  create_opened :
      Options
      → Base C V M B A F
      → V.Item
      → Option (KeyPair C)
      → Option Text
      → M.State × Option Fault
      → Run
  unfolding closed_after create_service
  create_opened o ctl self pair pw (s, some e) = (ctl, s, some (annotated e))
  create_opened o ctl self pair pw (s, none) =
      closed_after (create_service C V M B A F o.base_url ctl self pair pw s)

  fresh : Base C V M B A F → M.State × Option Fault → Run
  fresh ctl (s, none) = (record ctl { has_storage = true }, s, none)
  fresh ctl (s, some e) = (ctl, s, some e)

  made : Bool → List InitFn → Base C V M B A F → M.State → Run
  unfolding fresh
  made true fns ctl s = (ctl, s, none)
  made false fns ctl s = fresh ctl (W.new_storage s fns)

  with_storage : Options → V.Item → Option (KeyPair C) → Option Text → Run → Run
  unfolding create_opened
  with_storage o self pair pw (ctl, s, some e) = (ctl, s, some (annotated e))
  with_storage o self pair pw (ctl, s, none) = create_opened o ctl self pair pw (B.open_storage s)

  bootstrapped :
      Options
      → Base C V M B A F
      → V.Item
      → Option (KeyPair C)
      → Option Text
      → List InitFn
      → M.State × Option Fault
      → Run
  unfolding made with_storage
  bootstrapped o ctl self pair pw fns (s, some e) = (ctl, s, some (annotated e))
  bootstrapped o ctl self pair pw fns (s, none) =
      with_storage o self pair pw (made ctl.has_storage fns ctl s)

  with_init_fns :
      Options
      → Base C V M B A F
      → V.Item
      → Option (KeyPair C)
      → Option Text
      → M.State × Result (List InitFn)
      → Run
  unfolding bootstrapped
  with_init_fns o ctl self pair pw (s, err e) = (ctl, s, some (annotated e))
  with_init_fns o ctl self pair pw (s, ok fns) =
      bootstrapped o ctl self pair pw fns (W.bootstrap_storage s fns)

  with_path :
      Options
      → Base C V M B A F
      → V.Item
      → Option (KeyPair C)
      → Option Text
      → M.State × Result Text
      → Run
  unfolding with_init_fns storage_init_fns
  with_path o ctl self pair pw (s, err e) = (ctl, s, some e)
  with_path o ctl self pair pw (s, ok path) =
      with_init_fns o ctl self pair pw (storage_init_fns W.directories sys true o s)

  -- `bootstrap`, with a logger
  unfoldable pub bootstrap_service :
      Options → Base C V M B A F → V.Item → Option (KeyPair C) → Option Text → M.State → Run
  unfolding with_path base_storage_path
  bootstrap_service o ctl self pair pw s =
      with_path o ctl self pair pw (base_storage_path W.directories sys o s)

  abbrev pub Boot : Type 0
  Boot = Base C V M B A F × M.State × Booted

  -- The service is set before the key, which is read from a pair that may be missing.
  reopened : Base C V M B A F → V.Item → Option (KeyPair C) → M.State × Option Fault → Boot
  reopened ctl actor pair (s, some e) = (ctl, s, boot_failed e)
  reopened ctl actor none (s, none) = (record ctl { service = actor }, s, boot_panic)
  reopened ctl actor (some pair) (s, none) =
      (record ctl { service = actor; private_key = pair.private }, s, booted)

  after_bootstrap : V.Item → Option (KeyPair C) → Run → Boot
  unfolding reopened
  after_bootstrap actor pair (ctl, s, some e) = (ctl, s, boot_failed e)
  after_bootstrap actor pair (ctl, s, none) = reopened ctl actor pair (B.open_storage s)

  -- `Bootstrap`, which does nothing without a base URL
  unfoldable pub bootstrap :
      Options → Base C V M B A F → Option (KeyPair C) → Option Text → M.State → Boot
  unfolding bootstrap_service after_bootstrap
  bootstrap o ctl pair pw s =
      if o.base_url == []
      then (ctl, s, booted)
      else after_bootstrap (W.self o.base_url) pair
          (bootstrap_service o ctl (W.self o.base_url) pair pw (B.close_storage s))

  cleaned : M.State × Option Fault → M.State × Option Fault
  cleaned (s, none) = (s, none)
  cleaned (s, some e) = (s, if W.is_not_exist e then none else some (annotated e))

  clean_with : M.State × Result (List InitFn) → M.State × Option Fault
  unfolding cleaned
  clean_with (s, err e) = (s, some (annotated e))
  clean_with (s, ok fns) = cleaned (W.clean_storage s fns)

  unfoldable pub reset : Options → M.State → M.State × Option Fault
  unfolding storage_init_fns clean_with
  reset o s = clean_with (storage_init_fns W.directories sys true o s)

  -- `BootstrapStorage`, after `setup`, which sets the storage
  unfoldable bootstrap_storage :
      Result Options → Base C V M B A F → V.Item → Option (KeyPair C) → M.State → Run
  unfolding bootstrap_service
  bootstrap_storage (err e) ctl service pair s = (ctl, s, some e)
  bootstrap_storage (ok o) ctl service pair s =
      bootstrap_service o (record ctl { has_storage = true }) service pair none s

  -- `ResetStorage`
  unfoldable reset_storage : Options → M.State → M.State × Option Fault
  unfolding reset
  reset_storage o s = reset o s

  after_reset : Options → Base C V M B A F → M.State × Option Fault → Run
  unfolding generate_key_pair bootstrap_service
  after_reset o ctl (s, some e) = (ctl, s, some e)
  after_reset o ctl (s, none) =
      elim (generate_key_pair C
        (if o.mastodon_compatible then key_type_rsa else key_type_ed25519)) [
          | err e ↦ (ctl, s, some e)
          | ok pair ↦ bootstrap_service o ctl ctl.service (some pair) none s
        ]

  close_run : Run → Run
  close_run (ctl, s, e) = (ctl, B.close_storage s, e)

  opened_reset : Options → Base C V M B A F → M.State × Option Fault → Run
  unfolding reset after_reset close_run
  opened_reset o ctl (s, some e) = (ctl, s, some (annotated e))
  opened_reset o ctl (s, none) = close_run (after_reset o ctl (reset o s))

  -- `ResetCmd.Run`
  unfoldable pub reset_cmd : Options → Base C V M B A F → M.State → Run
  unfolding opened_reset
  reset_cmd o ctl s = opened_reset o ctl (B.open_storage s)
