-- ===== src/Config/Storage.antt =====
-- `BaseStoragePath` and `StorageInitFns` of internal/config/config.go.
pub mod Laws
use fedbox.Prelude.{
  ℕ, Bool, true, false, not, Option, none, some, List, [], ◌∷◌, Text, codes, ◌==◌, text_eq,
  if◌then◌else◌,
}
use fedbox.Fault.{Fault, Result, ok, err, failed, annotated}
use fedbox.Config.Options.{Options, System}
use fedbox.Config.Paths.{normalize_config_path}

-- `os.Stat`, with whether the file is a directory, `os.IsNotExist` and `os.MkdirAll`
pub record Directories (State : Type 0) : Type 0 where
  pub stat : State → Text → Result Bool
  pub is_not_exist : Fault → Bool
  pub mkdir_all : State → Text → State × Option Fault

-- The options of the package storage-all
pub data InitFn : Type 0 where
  with_path with_type with_env with_hostname : Text → InitFn
  use_index with_cache : Bool → InitFn
  with_logger : InitFn

module _ {State : Type 0} (D : Directories State) (sys : System) where
  final_path : Text → State → State × Result Text
  final_path path s = elim (D.stat s path) [
    | err e ↦ (s, err e)
    | ok directory ↦ (s, if not directory then err failed else ok path)
  ]

  after_stat : Text → State × Option Fault → State × Result Text
  unfolding final_path
  after_stat path (s, some e) = (s, err (annotated e))
  after_stat path (s, none) = final_path path s

  created : Text → State → State × Option Fault
  created path s = elim (D.stat s path) [
    | ok _ ↦ (s, none)
    | err e ↦ if D.is_not_exist e then D.mkdir_all s path else (s, some e)
  ]

  unfoldable pub base_storage_path : Options → State → State × Result Text
  unfolding normalize_config_path created after_stat
  base_storage_path o s =
      let path = normalize_config_path sys o.storage_path o in
      if path == [] then (s, err failed) else after_stat path (created path s)

  abbrev init_fns : Bool → Text → Options → List InitFn
  init_fns logs path o =
      with_path path
      ∷ use_index o.use_index
      ∷ with_type o.storage
      ∷ with_cache o.storage_cache
      ∷ with_env o.env
      ∷ with_hostname o.hostname
      ∷ (if logs then with_logger ∷ [] else [])

  options_of : Bool → Options → State × Result Text → State × Result (List InitFn)
  options_of logs o (s, err e) = (s, err e)
  options_of logs o (s, ok path) = (s, ok (init_fns logs path o))

  -- The options, with a logger or without one
  unfoldable pub storage_init_fns : Bool → Options → State → State × Result (List InitFn)
  unfolding base_storage_path options_of
  storage_init_fns logs o s = options_of logs o (base_storage_path o s)
