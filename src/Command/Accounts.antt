-- ===== src/Command/Accounts.antt =====
-- cmd-accounts.go: the metadata, the keys and the passwords of accounts.
pub mod Laws
use fedbox.Prelude.{
  ℕ, suc, Bool, true, false, not, ◌||◌, Option, none, some, List, [], ◌∷◌, ◌++◌, Text, codes, ◌==◌,
  text_eq, if◌then◌else◌,
}
use fedbox.Fault.{Fault, Result, ok, err, failed, ◌>>=◌}
use fedbox.Vocab.{Vocab, Iri}
use fedbox.Keys.{
  Crypto, Metadata, MetadataStore, KeyPair, add_key_to_item, load_metadata_for_items,
  save_metadata_for_items,
}
use fedbox.Start.{load_pw_from_stdin}

-- What the commands call besides
pub record AccountServices (V : Vocab) (M : MetadataStore V) : Type 0 where
  -- the assertions that the storage is a `MetadataStorage` and a `passwordChanger`
  pub is_metadata_store : Bool
  pub is_password_changer : Bool
  pub load : M.State → Iri → Result V.Item
  pub password_set : M.State → Iri → Text → M.State × Option Fault
  -- the IRI of all persons, by `SearchActorsIRI`
  pub all_persons : Iri
  -- the actors for which `OnActor` calls its function
  pub actors : V.Item → List V.Item
  -- `ProcessClientActivity` of the update of an actor, with its outbox
  pub process_update : M.State → V.Item → Iri → M.State × Option Fault
  pub outbox_iri : V.Item → Iri
  -- the package jsonld, on the map of metadata
  pub marshal : List (Iri × Metadata) → Result Text
  pub unmarshal : Text → Result (List (Iri × Metadata))

module _ (C : Crypto) (V : Vocab) (M : MetadataStore V) (A : AccountServices V M) where
  members_of : V.Item → Result (List V.Item)
  members_of col = if V.is_collection col then V.members col else ok (col ∷ [])

  -- `Export.Run`, up to writing the text. The items are loaded, and not passed on.
  unfoldable pub export_accounts : M.State → Result Text
  unfolding members_of load_metadata_for_items
  export_accounts s = if not A.is_metadata_store then err failed else do
    col ← A.load s A.all_persons
    items ← members_of col
    A.marshal (load_metadata_for_items C V M s [])

  -- An error of saving the metadata is only printed.
  import_file : Result Text → M.State → M.State
  unfolding save_metadata_for_items
  import_file (err e) s = s
  import_file (ok []) s = s
  import_file (ok (c ∷ buf)) s = (save_metadata_for_items C V M A.unmarshal (c ∷ buf) s).0

  import_each : List (Result Text) → M.State → M.State
  unfolding import_file
  import_each [] s = s
  import_each (f ∷ fs) s = import_each fs (import_file f s)

  -- `Import.Run`, whose errors on single files are only printed
  unfoldable pub import_accounts : List (Result Text) → M.State → M.State × Option Fault
  unfolding import_each
  import_accounts files s =
      if not A.is_metadata_store then (s, some failed) else (import_each files s, none)

  load_actors : List Iri → M.State → List V.Item
  load_actors [] s = []
  load_actors (iri ∷ iris) s =
      let rest = load_actors iris s in
      elim (A.load s iri) [ err e ↦ rest | ok it ↦ A.actors it ++ rest ]

  only_actors : List V.Item → List V.Item
  only_actors [] = []
  only_actors (act ∷ acts) =
      let rest = only_actors acts in
      if V.matches V.actor_types (V.types act) then act ∷ rest else rest

  chosen : List Iri → M.State → Result (List V.Item)
  unfolding load_actors only_actors
  chosen [] s = A.load s A.all_persons >>= (λ it. ok (only_actors (A.actors it)))
  chosen (iri ∷ iris) s = ok (load_actors (iri ∷ iris) s)

  -- A round of the loop, for the pair that is drawn in it: errors of the keys are only printed, and
  -- the actor is left as `AddKeyToItem` leaves it.
  keyed_round : Result (KeyPair C) → V.Item → M.State → M.State × V.Item
  unfolding add_key_to_item
  keyed_round (err e) act s = (s, act)
  keyed_round (ok pair) act s = let left = add_key_to_item C V M pair act s in (left.0, left.1)

  updated : M.State × V.Item → M.State × Option Fault
  updated (s, act) = A.process_update s act (A.outbox_iri act)

  go_on : M.State × Option Fault → (M.State → M.State × Option Fault) → M.State × Option Fault
  go_on (s, none) rest = rest s
  go_on (s, some e) rest = (s, some e)

  -- The loop over the actors; `draws` has the pair of each round.
  unfoldable pub gen_each :
      (ℕ → Result (KeyPair C)) → ℕ → List V.Item → M.State → M.State × Option Fault
  unfolding keyed_round updated go_on
  gen_each draws n [] s = (s, none)
  gen_each draws n (act ∷ acts) s =
      go_on (updated (keyed_round (draws n) act s)) (gen_each draws (suc n) acts)

  -- `GenKeys.Run`
  unfoldable pub gen_keys : (ℕ → Result (KeyPair C)) → List Iri → M.State → M.State × Option Fault
  unfolding chosen gen_each
  gen_keys draws iris s =
      if not A.is_metadata_store
      then (s, some failed)
      else elim (chosen iris s) [ err e ↦ (s, some e) | ok acts ↦ gen_each draws 0 acts s ]

  set_or_refuse : Iri → Text → M.State → M.State × Option Fault
  set_or_refuse iri pw s =
      if not A.is_password_changer then (s, some failed) else A.password_set s iri pw

  -- `ChangePassword.Run`, for the two passwords that are typed
  unfoldable pub change_password : Iri → Text → Text → M.State → M.State × Option Fault
  unfolding load_pw_from_stdin set_or_refuse
  change_password iri pw1 pw2 s = elim (A.load s iri >>= M.on_actor) [
    | err e ↦ (s, some e)
    | ok actor ↦ elim (load_pw_from_stdin pw1 pw2) [
      | err e ↦ (s, some e)
      | ok pw ↦ set_or_refuse iri pw s
    ]
  ]
