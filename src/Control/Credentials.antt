-- ===== src/Control/Credentials.antt =====
-- `getPwAndKey` and `BootstrapCmd.Run` of cmd-bootstrap.go, and `Serve.Run` of cmd-serve.go.
pub mod Laws
use fedbox.Prelude.{
  Bool, not, ◌||◌, Option, none, some, List, [], ◌∷◌, ◌++◌, Text, codes, ◌==◌, text_eq,
  if◌then◌else◌,
}
use fedbox.Go.FilePath.{join_path}
use fedbox.Fault.{Fault, Result, ok, err}
use fedbox.Vocab.{Vocab, Iri}
use fedbox.Config.Options.{Options, System}
use fedbox.Config.Pid.{Files}
use fedbox.Keys.{
  Crypto, MetadataStore, KeyPair, generate_key_pair, key_pair_from_private_bytes, key_type_rsa,
  key_type_ed25519,
}
use fedbox.Control.Backing.{Backing, store_of}
use fedbox.Control.Addition.{Adding}
use fedbox.Control.Service.{Founding, Base}
use fedbox.Control.Bootstrap.{Founders, Boot, Booted, booted, boot_failed, boot_panic, bootstrap}

-- `os.RemoveAll` of a file
abbrev pub remove_file : Files → Text → Files
remove_file files path p = if p == path then none else files p

unfoldable pub key_file : Options → Text
key_file o = join_path o.storage_path (o.hostname ++ codes ".key")

unfoldable pub pw_file : Options → Text
pw_file o = join_path o.storage_path (o.hostname ++ codes ".pw")

module _ (C : Crypto) (V : Vocab) (M : MetadataStore V) (B : Backing V M)
    (A : Adding V (store_of V M B)) (F : Founding V) (W : Founders V M) (sys : System) where
  unfoldable pub generated : Text → Option (KeyPair C)
  unfolding generate_key_pair
  generated typ = elim (generate_key_pair C typ) [ err e ↦ none | ok pair ↦ some pair ]

  -- The pair that is read or generated, and whether the file is removed at the end
  found_key : Options → Text → Files → Option (KeyPair C) × (Files → Files)
  unfolding generated key_pair_from_private_bytes
  found_key o typ files = elim (files (key_file o)) [
    | none ↦ (generated typ, λ fs. fs)
    | some prv ↦ elim (key_pair_from_private_bytes C prv) [
      | err e ↦ (generated typ, λ fs. fs)
      | ok pair ↦ (some pair, λ fs. remove_file fs (key_file o))
    ]
  ]

  random_if_none : Option Text → Text
  random_if_none none = W.random_text
  random_if_none (some pw) = pw

  found_password : Options → Files → Text × (Files → Files)
  unfolding random_if_none
  found_password o files = elim (files (pw_file o)) [
    | none ↦ (W.random_text, λ fs. fs)
    | some pw ↦ (random_if_none (W.trim_space pw), λ fs. remove_file fs (pw_file o))
  ]

  -- The file of the password is removed before the one of the key.
  unfoldable pub get_pw_and_key : Options → Text → Files → Text × Option (KeyPair C) × Files
  unfolding found_key found_password
  get_pw_and_key o typ files =
      let (pair, without_key) = found_key o typ files in
      let (pw, without_pw) = found_password o files in (pw, pair, without_key (without_pw files))

  -- A panic is the only thing that the command does not hide.
  pub data Exit : Type 0 where
    exit_ok : Exit
    exit_panic : Exit

  unfoldable pub exit_of : Booted → Exit
  exit_of booted = exit_ok
  exit_of (boot_failed e) = exit_ok
  exit_of boot_panic = exit_panic

  -- `BootstrapCmd.Run`, for the storage of the command's options and its type of keys and password
  unfoldable pub bootstrap_cmd :
      Text
      → Text
      → Text
      → Options
      → Base C V M B A F
      → Files
      → M.State
      → Base C V M B A F × M.State × Files × Exit
  unfolding get_pw_and_key bootstrap exit_of
  bootstrap_cmd storage typ password o ctl files s =
      let o' = if storage == [] then o else record o { storage = storage } in
      let (pw, pair, files') = get_pw_and_key o' typ files in
      let given = if password == [] then pw else password in
      let (ctl', s', r) = bootstrap C V M B A F W sys o' ctl pair (some given) s in
      (ctl', s', files', exit_of r)

  -- What `Serve.Run` does between `New` and `Run`: the service is created if it was asked for and the
  -- one that is there has another id than the base URL.
  unfoldable pub serve_bootstrap :
      (Iri → Text → Bool)
      → Bool
      → Options
      → Base C V M B A F
      → Files
      → M.State
      → Base C V M B A F × M.State × Files × Exit
  unfolding get_pw_and_key bootstrap exit_of
  serve_bootstrap equal asked o ctl files s =
      if not asked || equal (A.id ctl.service) o.base_url
      then (ctl, s, files, exit_ok)
      else let typ = if o.mastodon_compatible then key_type_rsa else key_type_ed25519 in
        let (pw, pair, files') = get_pw_and_key o typ files in
        let (ctl', s', r) = bootstrap C V M B A F W sys o ctl pair (some pw) s in
        (ctl', s', files', exit_of r)
