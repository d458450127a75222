-- ===== src/Control/Deletion.antt =====
-- `DeleteObjects` and `DeleteClient`.
pub mod Laws
use fedbox.Prelude.{
  Bool, true, false, not, Option, none, some, List, [], ◌∷◌, ◌++◌, Text, codes, if◌then◌else◌,
}
use fedbox.Fault.{Fault, Result, ok, err, not_found}
use fedbox.Vocab.{Vocab, Iri}
use fedbox.Control.Store.{Draft, Store}

module _ (V : Vocab) (S : Store V) where
  -- What is no object to delete: activities and what is deleted already
  abbrev pub removable : V.Item → Bool
  removable o = not (
      V.matches (V.activity_types ++ (V.intransitive_types ++ (V.tombstone_type ∷ []))) (V.types o))

  abbrev pub author_of : V.Item → List Iri
  author_of o = elim (V.attributed_to o) [ none ↦ [] | some a ↦ a ∷ [] ]

  -- The function that is called for each object: the recipients are those of this object.
  unfoldable pub add_object : Draft → V.Item → Draft
  add_object d o =
      if removable o
      then record d {
        to = V.to o;
        bto = V.bto o;
        cc = V.cc o ++ author_of o;
        bcc = V.bcc o;
        objects = d.objects ++ (V.link o ∷ []);
      }
      else d

  unfoldable pub add_objects : Draft → List V.Item → Draft
  unfolding add_object
  add_objects d [] = d
  add_objects d (o ∷ os) = add_objects (add_object d o) os

  -- The loop over the IRIs, which passes over those that cannot be loaded
  add_loaded : Draft → List Iri → S.State → Draft
  unfolding add_objects
  add_loaded d [] s = d
  add_loaded d (iri ∷ ids) s = elim (S.load s iri []) [
    | err e ↦ add_loaded d ids s
    | ok it ↦ add_loaded (add_objects d (V.objects it)) ids s
  ]

  -- The references that `url.Parse` accepts
  unfoldable pub accepted : (Text → Bool) → List Text → List Iri
  accepted is_url [] = []
  accepted is_url (r ∷ rs) = let rest = accepted is_url rs in if is_url r then r ∷ rest else rest

  -- The deletion before its objects are added
  abbrev pub empty_draft : (Text → Bool) → Text → List Text → Draft
  unfolding accepted
  empty_draft is_url reason in_reply_to = record {
    type_name = V.delete_type;
    to = V.public_ns ∷ [];
    bto = [];
    cc = [];
    bcc = [];
    in_reply_to = accepted is_url in_reply_to;
    content = reason;
    objects = [];
  }

  send_deletion : V.Item → Draft → List Iri → S.State → S.State × Option Fault
  send_deletion self d [] s = (s, some not_found)
  send_deletion self d (o ∷ os) s =
      S.process_client s (record d { cc = d.cc ++ (V.link self ∷ []) }) self
        (V.link (V.of V.outbox self))

  unfoldable pub delete_objects :
      (Text → Bool) → V.Item → Text → List Text → List Iri → S.State → S.State × Option Fault
  unfolding add_loaded accepted send_deletion
  delete_objects is_url self reason in_reply_to ids s =
      let d = add_loaded (empty_draft is_url reason in_reply_to) ids s in
      send_deletion self d d.objects s

  abbrev then_remove : Iri → S.State × Option Fault → S.State × Option Fault
  then_remove iri (s, none) = S.remove_client s iri
  then_remove iri (s, some e) = (s, some e)

  -- An id that `IRI.URL` refuses is taken for the last part of an actor's IRI. `actors_path` is
  -- `filters.ActorsType`.
  unfoldable delete_client :
      (Text → Bool) → (Text → Bool) → Text → Text → V.Item → Text → S.State → S.State × Option Fault
  unfolding delete_objects
  delete_client parses is_url base_url actors_path self id s =
      let iri =
        if is_url id then id else base_url ++ (codes "/" ++ (actors_path ++ (codes "/" ++ id))) in
      then_remove iri (delete_objects parses self (codes "Remove OAuth2 Client") [] (iri ∷ []) s)
