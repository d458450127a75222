-- ===== src/Control/Addition.antt =====
-- `AddActor` and `AddObject` of base.go, with `LoadActor` and `WrapObjectInCreate` of activitypub.
pub mod Laws
use fedbox.Prelude.{
  Bool, true, false, ◌||◌, Option, none, some, List, [], ◌∷◌, Text, ◌==◌, text_eq, if◌then◌else◌,
}
use fedbox.Fault.{Fault, Result, ok, err, not_found, failed, annotated}
use fedbox.Vocab.{Vocab, Iri, CollectionPath}
use fedbox.Control.Store.{Store}

-- The activity of `wrapInActivity`, without its time
pub record Wrapped (V : Vocab) : Type 0 where
  pub type_name : Text
  pub to : List Iri
  pub cc : List V.Item
  pub object : V.Item
  pub attributed_to : Iri
  pub actor : V.Item

-- What the two functions call of other packages besides
pub record Adding (V : Vocab) (S : Store V) : Type 0 where
  -- `ProcessClientActivity`, which leaves the wrapped object with an id
  pub process : S.State → Wrapped V → V.Item → Iri → S.State × V.Item × Option Fault
  -- `Append` of an `ItemCollection`
  pub append : List V.Item → List V.Item → List V.Item
  pub followers : CollectionPath
  pub create_type : Text
  -- `GetID`, `DefaultServiceIRI`, and `OnActor` on a single item
  pub id : V.Item → Iri
  pub service_iri : Text → Iri
  pub on_actor : V.Item → Result V.Item
  -- the comparison of `isAnonymous` with the link of an author
  pub is_anonymous : Iri → Bool
  -- the paths of `GenerateID`, and its function in the package activitypub
  pub activities : CollectionPath
  pub actors : CollectionPath
  pub all_objects : CollectionPath
  pub iri : CollectionPath → Iri → Iri
  pub generate_id : V.Item → Iri → V.Item → Result Iri

-- What the caller gets: the object, an error, or a panic on a missing outbox
pub data Added (V : Vocab) : Type 0 where
  added : V.Item → Added V
  refused : Fault → Added V
  panicked : Added V

module _ (V : Vocab) (S : Store V) (A : Adding V S) where
  load_actor : S.State → Iri → Result V.Item
  load_actor s i = elim (S.load s i []) [ err e ↦ err (annotated e) | ok it ↦ A.on_actor it ]

  wrap_in_activity : V.Item → V.Item → Text → Wrapped V
  wrap_in_activity p author typ = record {
    type_name = typ;
    to = V.public_ns ∷ [];
    cc = A.append [] (V.iri_item (V.link author) ∷ V.of A.followers author ∷ []);
    object = p;
    attributed_to = V.link author;
    actor = author;
  }

  -- The IRI for a new item, from the base IRI
  unfoldable pub generate_id : Iri → V.Item → V.Item → Result Iri
  generate_id base it by =
      let typ = V.types it in
      let part_of =
        if V.matches V.activity_types typ || V.matches V.intransitive_types typ
        then A.iri A.activities base
        else if V.matches V.actor_types typ || V.matches (V.actor_type ∷ []) typ
        then A.iri A.actors base
        else A.iri A.all_objects base in
      A.generate_id it part_of by

  with_id : V.Item → Result V.Item
  with_id author = if A.id author == [] then err not_found else ok author

  -- The author, or the service in place of the anonymous actor
  author_for : Text → V.Item → S.State → Result V.Item
  unfolding load_actor with_id
  author_for base_url author s =
      if A.is_anonymous (V.link author)
      then elim (load_actor s (A.service_iri base_url)) [
        | err e ↦ err not_found
        | ok self ↦ with_id self
      ]
      else with_id author

  -- A conflict is no error for `AddActor`.
  forgiven : S.State × V.Item × Option Fault → S.State × Added V
  forgiven (s, p, none) = (s, added p)
  forgiven (s, p, some e) = (s, if S.is_conflict e then added p else refused e)

  reported : S.State × V.Item × Option Fault → S.State × Added V
  reported (s, p, none) = (s, added p)
  reported (s, p, some e) = (s, refused e)

  unfoldable pub add_actor : Text → V.Item → V.Item → S.State → S.State × Added V
  unfolding author_for wrap_in_activity forgiven
  add_actor base_url p author s = elim (author_for base_url author s) [
    | err e ↦ (s, refused e)
    | ok by ↦
        let outbox = V.of V.outbox by in
        if V.is_nil outbox
        then (s, refused failed)
        else forgiven (A.process s (wrap_in_activity p by A.create_type) by (V.link outbox))
  ]

  -- The link of the outbox is taken before the test whether there is one.
  unfoldable pub add_object : Text → V.Item → V.Item → S.State → S.State × Added V
  unfolding author_for wrap_in_activity reported
  add_object base_url p author s = elim (author_for base_url author s) [
    | err e ↦ (s, refused e)
    | ok by ↦
        let outbox = V.of V.outbox by in
        if V.is_nil outbox
        then (s, panicked)
        else if V.is_nil (V.iri_item (V.link outbox))
        then (s, refused failed)
        else reported (A.process s (wrap_in_activity p by A.create_type) by (V.link outbox))
  ]
