-- ===== src/Config/Storage/Laws.antt =====
-- What making the path of the storage leaves as it is.
use fedbox.Prelude.{
  ◌≡◌, refl, ◌∙◌, inl, inr, Bool, Option, none, some, [], Text, ◌==◌, text_eq, Bool-cases,
}
use fedbox.Fault.{Fault, Result, ok, err, Result-cases}
use fedbox.Config.Options.{Options, System}
use fedbox.Config.Paths.{normalize_config_path}
use fedbox.Config.Storage.{
  Directories, final_path, after_stat, created, options_of, base_storage_path, storage_init_fns,
}

module _ {State : Type 0} (D : Directories State) (sys : System) (f : State → Bool)
    (mkdir : (s : State) (path : Text) → f (D.mkdir_all s path).0 ≡ f s) where
  after_stat_keeps :
      (path : Text) (p : State × Option Fault) → f (after_stat D sys path p).0 ≡ f p.0
  unfolding after_stat final_path
  after_stat_keeps path (s, some e) = refl
  after_stat_keeps path (s, none) = elim (Result-cases (D.stat s path)) [
    | inl (e, bad) ↦ rw (bad, final_path)
    | inr (d, good) ↦ rw (good, final_path)
  ]

  created_keeps : (path : Text) (s : State) → f (created D sys path s).0 ≡ f s
  unfolding created
  created_keeps path s = elim (Result-cases (D.stat s path)) [
    | inl (e, bad) ↦ elim (Bool-cases (D.is_not_exist e)) [
      | inl absent ↦ rw (bad, created, absent) (mkdir s path)
      | inr other ↦ rw (bad, created, other)
    ]
    | inr (d, good) ↦ rw (good, created)
  ]

  pub base_storage_path_keeps : (o : Options) (s : State) → f (base_storage_path D sys o s).0 ≡ f s
  unfolding base_storage_path
  base_storage_path_keeps o s =
      elim (Bool-cases (normalize_config_path sys o.storage_path o == [])) [
        | inl empty ↦ rw empty refl
        | inr path ↦ rw path (
            after_stat_keeps (normalize_config_path sys o.storage_path o)
              (created D sys (normalize_config_path sys o.storage_path o) s)
            ∙ created_keeps (normalize_config_path sys o.storage_path o) s)
      ]

  options_of_keeps :
      (logs : Bool) (o : Options) (p : State × Result Text)
      → f (options_of D sys logs o p).0 ≡ f p.0
  unfolding options_of
  options_of_keeps logs o (s, err e) = refl
  options_of_keeps logs o (s, ok path) = refl

  pub storage_init_fns_keeps :
      (logs : Bool) (o : Options) (s : State) → f (storage_init_fns D sys logs o s).0 ≡ f s
  unfolding storage_init_fns
  storage_init_fns_keeps logs o s =
      options_of_keeps logs o (base_storage_path D sys o s) ∙ base_storage_path_keeps o s
