-- ===== src/Command/Add/Laws.antt =====
-- The type of what is added.
use fedbox.Prelude.{◌≡◌, true, Text, text_eq}
use fedbox.Vocab.{Vocab, Iri}
use fedbox.Keys.{Crypto, MetadataStore}
use fedbox.Control.Backing.{Backing, store_of}
use fedbox.Control.Addition.{Adding}
use fedbox.Command.Add.{Making, add_cmd}

module _ (C : Crypto) (V : Vocab) (M : MetadataStore V) (B : Backing V M)
    (A : Adding V (store_of V M B)) (K : Making V M B) where
  -- Whatever type is asked for, the command does the same for any two types that it accepts: what
  -- is made is always a note.
  pub add_cmd_same :
      (base_url typ typ' name : Text) (by : Iri) (s : M.State)
      → K.is_valid_object typ ≡ true
      → K.is_valid_object typ' ≡ true
      → add_cmd C V M B A K base_url typ name by s ≡ add_cmd C V M B A K base_url typ' name by s
  unfolding add_cmd
  add_cmd_same base_url typ typ' name by s v v' = rw (v, v')
