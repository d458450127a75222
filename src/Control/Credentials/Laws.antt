-- ===== src/Control/Credentials/Laws.antt =====
-- The files of the key and of the password.
use fedbox.Prelude.{
  ◌≡◌, refl, sym, ap, ◌∙◌, ◌⊎◌, inl, inr, ◌≢◌, Option, none, some, Text, codes, ◌++◌, ◌==◌, text_eq,
  text_beq_iff, Bool-cases, Option-cases, ==_refl,
}
use mathlib.Core.Path.{subst}
use fedbox.Go.FilePath.{join_path}
use fedbox.Fault.{Fault, ok, err, Result-cases}
use fedbox.Vocab.{Vocab}
use fedbox.Config.Options.{Options, System}
use fedbox.Config.Pid.{Files}
use fedbox.Keys.{Crypto, MetadataStore, KeyPair, generate_key_pair, key_pair_from_private_bytes}
use fedbox.Control.Backing.{Backing, store_of}
use fedbox.Control.Addition.{Adding}
use fedbox.Control.Service.{Founding}
use fedbox.Control.Bootstrap.{Founders}
use fedbox.Control.Credentials.{
  remove_file, key_file, pw_file, found_key, found_password, get_pw_and_key, generated,
  random_if_none,
}

remove_file-removed : (files : Files) (path : Text) → remove_file files path path ≡ none
remove_file-removed files path = rw (==_refl path)

remove_file_other :
    (files : Files) (path p : Text) → (remove_file files path p ≡ files p) ⊎ (p ≡ path)
remove_file_other files path p = elim (Bool-cases (p == path)) [
  | inl same ↦ inr ((text_beq_iff p path).0 same)
  | inr other ↦ inl (rw other)
]

remove_file-none :
    (files : Files) (path p : Text) → files p ≡ none → remove_file files path p ≡ none
remove_file-none files path p gone = elim (Bool-cases (p == path)) [
  | inl same ↦ rw same
  | inr other ↦ rw (other, gone)
]

module _ (C : Crypto) (V : Vocab) (M : MetadataStore V) (B : Backing V M)
    (A : Adding V (store_of V M B)) (F : Founding V) (W : Founders V M) (sys : System) where
  -- A pair that is generated, or none where that fails
  unfoldable pub made : Text → Option (KeyPair C)
  made typ = elim (generate_key_pair C typ) [ err e ↦ none | ok pair ↦ some pair ]

  -- The key pair that is found for what the file of the key holds, and what is left of that file
  pub data KeyFound (typ : Text) : Option Text → Option (KeyPair C) → Option Text → Type 0 where
    no_key_file : KeyFound typ none (made typ) none
    undecoded :
        (prv : Text) (e : Fault)
        → key_pair_from_private_bytes C prv ≡ err e
        → KeyFound typ (some prv) (made typ) (some prv)
    decoded :
        (prv : Text) (pair : KeyPair C)
        → key_pair_from_private_bytes C prv ≡ ok pair
        → KeyFound typ (some prv) (some pair) none

  -- The password that is found for what the file of the password holds
  pub data PasswordFound : Option Text → Text → Type 0 where
    no_pw_file : PasswordFound none W.random_text
    empty_pw_file : (raw : Text) → W.trim_space raw ≡ none → PasswordFound (some raw) W.random_text
    read_pw_file : (raw pw : Text) → W.trim_space raw ≡ some pw → PasswordFound (some raw) pw

  generated-made : (typ : Text) → generated C V M B A F W sys typ ≡ made typ
  unfolding generated made generate_key_pair
  generated-made typ = refl

  -- The way in which the key is found, with the removal of its file
  found_key-cases :
      (o : Options) (typ : Text) (files : Files)
      → ((pair : KeyPair C) × (prv : Text) × (files (key_file o) ≡ some prv)
          × (key_pair_from_private_bytes C prv ≡ ok pair)
          × (found_key C V M B A F W sys o typ files
              ≡ (some pair, λ fs. remove_file fs (key_file o))))
        ⊎ (KeyFound typ (files (key_file o)) (made typ) (files (key_file o))
            × (found_key C V M B A F W sys o typ files ≡ (made typ, λ fs. fs)))
  unfolding found_key
  found_key-cases o typ files = elim (Option-cases (files (key_file o))) [
    | inl missing ↦ inr (
      rw missing no_key_file,
      rw (missing, found_key) (ap (λ k. (k, λ fs. fs)) (generated-made typ)),
    )
    | inr (prv, there) ↦ elim (Result-cases (key_pair_from_private_bytes C prv)) [
      | inl (e, bad) ↦ inr (
        rw there (undecoded prv e bad),
        rw (there, bad, found_key) (ap (λ k. (k, λ fs. fs)) (generated-made typ)),
      )
      | inr (pair, good) ↦ inl (pair, prv, there, good, rw (there, good, found_key) refl)
    ]
  ]

  found_password-cases :
      (o : Options) (files : Files)
      → PasswordFound (files (pw_file o)) (found_password C V M B A F W sys o files).0
        × (((found_password C V M B A F W sys o files).1 ≡ (λ fs. remove_file fs (pw_file o)))
            ⊎ (((found_password C V M B A F W sys o files).1 ≡ (λ fs. fs))
                × (files (pw_file o) ≡ none)))
  unfolding found_password random_if_none
  found_password-cases o files = elim (Option-cases (files (pw_file o))) [
    | inl missing ↦
        (rw (missing, found_password) no_pw_file, inr (rw (missing, found_password) refl, missing))
    | inr (raw, there) ↦ elim (Option-cases (W.trim_space raw)) [
      | inl empty ↦ (
        rw (there, found_password, empty, random_if_none) (empty_pw_file raw empty),
        inl (rw (there, found_password) refl),
      )
      | inr (pw, full) ↦ (
        rw (there, found_password, full, random_if_none) (read_pw_file raw pw full),
        inl (rw (there, found_password) refl),
      )
    ]
  ]

  -- The files once the password's may have been removed
  abbrev left_by_password : Options → Files → Files
  left_by_password o files = (found_password C V M B A F W sys o files).1 files

  left_by_password-none :
      (o : Options) (files : Files) → left_by_password o files (pw_file o) ≡ none
  left_by_password-none o files = elim (found_password-cases o files).1 [
    | inl removed ↦ ap (λ f. f files (pw_file o)) removed ∙ remove_file-removed files (pw_file o)
    | inr (kept, missing) ↦ ap (λ f. f files (pw_file o)) kept ∙ missing
  ]

  left_by_password_other :
      (o : Options) (files : Files) (p : Text)
      → (left_by_password o files p ≡ files p) ⊎ (p ≡ pw_file o)
  left_by_password_other o files p = elim (found_password-cases o files).1 [
    | inl removed ↦ elim (remove_file_other files (pw_file o) p) [
      | inl same ↦ inl (ap (λ f. f files p) removed ∙ same)
      | inr it ↦ inr it
    ]
    | inr (kept, missing) ↦ inl (ap (λ f. f files p) kept)
  ]

  -- What `getPwAndKey` gives and leaves, for the paths of the two files and of a further file
  pub record Credentials (key_path pw_path typ : Text) (files : Files) (p pw : Text)
      (pair : Option (KeyPair C)) (left : Files) : Type 0 where
    pub password : PasswordFound (files pw_path) pw
    pw_gone : left pw_path ≡ none
    pub key : KeyFound typ (files key_path) pair (left key_path)
    untouched : (left p ≡ files p) ⊎ (p ≡ key_path) ⊎ (p ≡ pw_path)

  kept_key-KeyFound :
      (o : Options) (typ : Text) (files : Files) (pair : Option (KeyPair C)) (left : Option Text)
      → KeyFound typ (files (key_file o)) (made typ) (files (key_file o))
      → pair ≡ made typ
      → left ≡ files (key_file o)
      → KeyFound typ (files (key_file o)) pair left
  kept_key-KeyFound o typ files pair left k is same =
      subst (λ q. KeyFound typ (files (key_file o)) q left) (sym is)
        (subst (KeyFound typ (files (key_file o)) (made typ)) (sym same) k)

  decoded_key-KeyFound :
      (o : Options) (typ : Text) (files : Files) (found : KeyPair C) (prv : Text)
      (pair : Option (KeyPair C)) (left : Option Text)
      → files (key_file o) ≡ some prv
      → key_pair_from_private_bytes C prv ≡ ok found
      → pair ≡ some found
      → left ≡ none
      → KeyFound typ (files (key_file o)) pair left
  decoded_key-KeyFound o typ files found prv pair left there good is gone =
      rw (there, is, gone) (decoded prv found good)

  -- If the files of the key and of the password, which the storage path has under the host name with
  -- ".key" and ".pw", have different paths, then `getPwAndKey` gives the password of its file without
  -- spaces around it, or a random one where there is no such file or nothing else in it, and there
  -- is no such file afterwards; it gives the key that its file holds, and then that file is gone
  -- afterwards, or, where there is no such file or it cannot be decoded, a generated one, or none
  -- where that fails, and then the file is as it was; and any other file is left alone.
  pub get_pw_and_key-Credentials :
      (o : Options) (typ : Text) (files : Files) (p : Text)
      → join_path o.storage_path (o.hostname ++ codes ".key")
        ≢ join_path o.storage_path (o.hostname ++ codes ".pw")
      → Credentials
          (join_path o.storage_path (o.hostname ++ codes ".key"))
          (join_path o.storage_path (o.hostname ++ codes ".pw"))
          typ
          files
          p
          (get_pw_and_key C V M B A F W sys o typ files).0
          (get_pw_and_key C V M B A F W sys o typ files).1
          (get_pw_and_key C V M B A F W sys o typ files).2
  unfolding get_pw_and_key key_file pw_file
  get_pw_and_key-Credentials o typ files p apart = elim (found_key-cases o typ files) [
    | inl (pair, prv, there, good, is) ↦
        let left = left_by_password o files in
        record {
          password = (found_password-cases o files).0;
          pw_gone =
              ap (λ f. f.1 left (pw_file o)) is
              ∙ remove_file-none left (key_file o) (pw_file o) (left_by_password-none o files);
          key =
              decoded_key-KeyFound o typ files pair prv _ _ there good (ap (λ f. f.0) is)
                (ap (λ f. f.1 left (key_file o)) is ∙ remove_file-removed left (key_file o));
          untouched = elim (remove_file_other left (key_file o) p) [
            | inr it ↦ inr (inl it)
            | inl same ↦ elim (left_by_password_other o files p) [
              | inl same' ↦ inl (ap (λ f. f.1 left p) is ∙ same ∙ same')
              | inr it ↦ inr (inr it)
            ]
          ];
        }
    | inr (k, is) ↦
        let left = left_by_password o files in
        record {
          password = (found_password-cases o files).0;
          pw_gone = ap (λ f. f.1 left (pw_file o)) is ∙ left_by_password-none o files;
          key = kept_key-KeyFound o typ files _ _ k (ap (λ f. f.0) is) (
              ap (λ f. f.1 left (key_file o)) is
              ∙ elim (left_by_password_other o files (key_file o)) [
                | inl same ↦ same
                | inr it ↦ elim (apart it) [ ]
              ]);
          untouched = elim (left_by_password_other o files p) [
            | inl same ↦ inl (ap (λ f. f.1 left p) is ∙ same)
            | inr it ↦ inr (inr it)
          ];
        }
  ]
