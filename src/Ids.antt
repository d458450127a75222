-- ===== src/Ids.antt =====
-- activitypub/generator.go: the ids of new items.
pub mod Laws
pub mod Self
pub mod Stable
use fedbox.Prelude.{
  Bool, true, false, not, ◌||◌, Option, none, some, List, [], ◌∷◌, Text, contains, text_eq,
  if◌then◌else◌,
}
use fedbox.Fault.{Fault, Result, ok, err}
use fedbox.Vocab.{Vocab, Iri}

-- What is called of the packages uuid and go-ap/activitypub
pub record Naming (V : Vocab) : Type 0 where
  pub new_uuid : Text
  pub add_path : Iri → Text → Iri
  pub recipients : V.Item → List Iri
  pub outbox_iri : V.Item → Iri
  pub is_link : V.Item → Bool
  -- the error of `OnIntransitiveActivity`, of `OnLink` and of `OnObject` on a single item
  pub on_activity : V.Item → Option Fault
  pub on_link : V.Item → Option Fault
  pub on_object : V.Item → Option Fault
  pub with_id : V.Item → Iri → V.Item

module _ (V : Vocab) (N : Naming V) where
  -- The item as it is left, the id, and the error
  abbrev Named : Type 0
  Named = V.Item × Iri × Option Fault

  -- The id is returned also where it could not be set.
  named : V.Item → Iri → Option Fault → Named
  named it id none = (N.with_id it id, id, none)
  named it id (some e) = (it, id, some e)

  -- The author, or the actor of the activity
  author_or_actor : V.Item → V.Item → V.Item
  author_or_actor by it = if V.is_nil by then V.actor_of it else by

  activity_id : Iri → V.Item → V.Item → Iri
  unfolding author_or_actor
  activity_id id by it =
      if contains (N.recipients it) V.public_ns
      then id
      else if not (V.is_nil (author_or_actor by it))
      then N.add_path (N.outbox_iri (author_or_actor by it)) N.new_uuid
      else id

  named_activity : V.Item → Iri → V.Item → Option Fault → Named
  unfolding named activity_id
  named_activity it id by (some e) = (it, id, some e)
  named_activity it id by none = named it (activity_id id by it) (N.on_object it)

  -- `GenerateID`
  unfoldable pub new_id : V.Item → Iri → V.Item → Named
  unfolding named_activity
  new_id it part_of by =
      let id = N.add_path part_of N.new_uuid in
      let typ = V.types it in
      if V.matches V.activity_types typ || V.matches V.intransitive_types typ
      then named_activity it id by (N.on_activity it)
      else if N.is_link it
      then named it id (N.on_link it)
      else named it id (N.on_object it)
