-- ===== src/Control/Repair.antt =====
-- cmd-fix-storage-collections.go: creating the collections that a storage lacks.
pub mod Laws
pub mod Asking
use fedbox.Prelude.{
  ℕ, Bool, true, false, not, Option, none, some, List, [], ◌∷◌, ◌++◌, ◌==◌, text_eq, contains,
  if◌then◌else◌,
}
use fedbox.Fault.{Fault, Result, ok, err, failed}
use fedbox.Vocab.{Vocab, Iri, CollectionPath}
use fedbox.Control.Store.{Store}

-- What the command calls of the package go-ap/activitypub besides
pub record Collections (V : Vocab) : Type 0 where
  -- `newOrderedCollection` for the service
  pub ordered_collection : Iri → V.Item
  -- `ToOrderedCollection`, and a collection with another number of items, and with no items
  pub to_ordered_collection : V.Item → Result V.Item
  pub with_total : V.Item → ℕ → V.Item
  pub without_items : V.Item → V.Item
  pub count : V.Item → ℕ
  -- the streams of an actor, by `OnActor`
  pub streams : V.Item → Result (List V.Item)
  -- `OfActor`, `OfObject`, and the IRI that `CollectionPath.IRI` gives for an item
  pub of_actor : List CollectionPath
  pub of_object : List CollectionPath
  pub iri : CollectionPath → V.Item → Iri
  -- `allCollectionPaths`, the second result of its `Split`, and `streamCollections`
  pub all_paths : List CollectionPath
  pub split : Iri → CollectionPath
  pub stream_paths : List CollectionPath

module _ (V : Vocab) (S : Store V) (C : Collections V) where
  collections_of : List CollectionPath → V.Item → List Iri
  collections_of [] act = []
  collections_of (col ∷ cols) act =
      let rest = collections_of cols act in
      if C.iri col act == [] then rest else C.iri col act ∷ rest

  unfoldable get_object_collections : V.Item → List Iri
  unfolding collections_of
  get_object_collections act = collections_of C.of_object act

  unfoldable pub get_actor_collections : V.Item → List Iri
  unfolding collections_of
  get_actor_collections act = collections_of C.of_actor act

  -- The errors of saving members are only logged.
  save_members : List V.Item → S.State → S.State
  save_members [] s = s
  save_members (it ∷ its) s = save_members its (S.save s it).0

  abbrev pub without_item : S.State × Result V.Item → S.State × Option Fault
  without_item (s, ok it) = (s, none)
  without_item (s, err e) = (s, some e)

  -- The members are saved, and then the collection with their number in their place.
  recount : V.Item → S.State → S.State × Option Fault
  unfolding save_members
  recount items s = elim (C.to_ordered_collection items) [
    | err e ↦ (s, some e)
    | ok collection ↦ elim (V.members items) [
      | err e ↦ without_item (S.save s (C.without_items collection))
      | ok its ↦
          without_item (
            S.save (save_members its s) (C.without_items (C.with_total collection (C.count items))))
    ]
  ]

  recount_saved : V.Item → S.State × Result V.Item → S.State × Option Fault
  unfolding recount
  recount_saved items (s, err e) = (s, some e)
  recount_saved items (s, ok it) = recount items s

  create_checked : S.State × Result V.Item → S.State × Option Fault
  create_checked (s, err e) = (s, some e)
  create_checked (s, ok it) = elim (C.to_ordered_collection it) [
    | err e ↦ (s, some e)
    | ok collection ↦ (s, none)
  ]

  -- A load that fails gives no items.
  unfoldable pub try_create_collection : Iri → S.State → S.State × Option Fault
  unfolding recount recount_saved create_checked
  try_create_collection col_iri s = elim (S.load s col_iri []) [
    | err e ↦
        if not (S.is_not_found e)
        then (s, some e)
        else create_checked (S.save s (C.ordered_collection col_iri))
    | ok items ↦
        if V.is_nil items
        then (s, none)
        else if not (V.is_collection items)
        then recount_saved items (S.save s items)
        else recount items s
  ]

  -- The loop at the end of both functions; errors are only logged.
  unfoldable pub try_create_all : List Iri → S.State → S.State
  unfolding try_create_collection
  try_create_all [] s = s
  try_create_all (col ∷ cols) s = try_create_all cols (try_create_collection col s).0

  -- The loop over the streams of an actor returns at the first one that is no collection.
  unfoldable pub stream_iris : List V.Item → List Iri
  stream_iris [] = []
  stream_iris (stream ∷ streams) =
      let rest = stream_iris streams in
      if contains C.all_paths (C.split (V.link stream)) then V.link stream ∷ rest else []

  unfoldable pub initial_collections : V.Item → List V.Item → List Iri
  unfolding get_actor_collections stream_iris
  initial_collections actor streams = get_actor_collections actor ++ stream_iris streams

  unfoldable pub try_create_actor_collections : V.Item → S.State → S.State × Option Fault
  unfolding initial_collections try_create_all
  try_create_actor_collections actor s = elim (C.streams actor) [
    | err e ↦ (s, some e)
    | ok streams ↦ (try_create_all (initial_collections actor streams) s, none)
  ]

  member_collections : List V.Item → List Iri
  unfolding get_actor_collections get_object_collections
  member_collections [] = []
  member_collections (it ∷ its) =
      let rest = member_collections its in
      if V.matches V.actor_types (V.types it)
      then get_actor_collections it ++ rest
      else if V.is_collection it
      then rest
      else get_object_collections it ++ rest

  -- The collections of what a loaded stream holds; an error is passed over.
  loaded_collections : Result V.Item → List Iri
  unfolding member_collections
  loaded_collections (err e) = []
  loaded_collections (ok items) = elim (V.members items) [
    | err e ↦ []
    | ok its ↦ member_collections its
  ]

  unfoldable pub object_collections : V.Item → List V.Item → S.State → List Iri
  unfolding loaded_collections
  object_collections service [] s = []
  object_collections service (stream ∷ streams) s =
      let rest = object_collections service streams s in
      let col = C.split (V.link stream) in
      if not (contains C.stream_paths col)
      then rest
      else loaded_collections (S.load s (C.iri col service) []) ++ rest

  unfoldable pub try_create_all_objects_collections : V.Item → S.State → S.State × Option Fault
  unfolding object_collections try_create_all
  try_create_all_objects_collections service s = elim (C.streams service) [
    | err e ↦ (s, some e)
    | ok streams ↦ (try_create_all (object_collections service streams s) s, none)
  ]

  abbrev and_objects : V.Item → S.State × Option Fault → S.State × Option Fault
  unfolding try_create_all_objects_collections
  and_objects service (s, some e) = (s, some e)
  and_objects service (s, none) = try_create_all_objects_collections service s

  unfoldable pub fix_collections : V.Item → S.State → S.State × Option Fault
  unfolding try_create_actor_collections try_create_all_objects_collections
  fix_collections service s =
      if not S.is_collection_store
      then (s, some failed)
      else and_objects service (try_create_actor_collections service s)
