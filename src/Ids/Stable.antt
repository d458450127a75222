-- ===== src/Ids/Stable.antt =====
-- activitypub/generator-stable-ids.go: the ids of the integration tests, which a counter numbers.
pub mod Laws
use fedbox.Prelude.{
  ℕ, ◌+◌, Bool, not, Option, none, some, List, [], ◌∷◌, ◌++◌, Text, codes, ◌==◌, text_eq,
  if◌then◌else◌,
}
use fedbox.Go.Strings.{to_lower}
use fedbox.Go.Decimal.{append_uint}
use fedbox.Fault.{Fault}
use fedbox.Vocab.{Vocab, Iri}

-- What is called of the packages net/url and go-ap/activitypub
pub record Labels (V : Vocab) : Type 1 where
  pub Url : Type 0
  -- `URL` of an IRI, a URL without its path, query and fragment, and `String`
  pub iri_url : Iri → Option Url
  pub cleared : Url → Url
  pub to_text : Url → Text
  -- the collection of a name at an IRI
  pub collection_iri : Text → Iri → Iri
  pub add_path : Iri → Text → Iri
  -- the author of an object, on which `OnObject` calls its function, or nothing
  pub object_author : V.Item → Option Iri
  -- the type of an item as a text, if it has one
  pub type_text : V.Item → Option Text
  pub is_link : V.Item → Bool
  pub on_link : V.Item → Option Fault
  pub on_object : V.Item → Option Fault
  pub with_id : V.Item → Iri → V.Item

module _ (V : Vocab) (N : Labels V) where
  base_iri : Iri → Iri
  base_iri i = elim (N.iri_url i) [ none ↦ i | some u ↦ N.to_text (N.cleared u) ]

  -- The base of the collection, of the author that is passed or of the one of the item, whichever is
  -- the first that is not empty
  stable_base : V.Item → Iri → V.Item → Iri
  unfolding base_iri
  stable_base it part_of by =
      if not (base_iri part_of == [])
      then base_iri part_of
      else if not (base_iri (V.link by) == [])
      then base_iri (V.link by)
      else elim (N.object_author it) [ none ↦ [] | some i ↦ base_iri i ]

  collection_base : V.Item → Iri → Iri
  collection_base it base =
      if V.matches V.actor_types (V.types it)
      then N.collection_iri (codes "actors") base
      else if V.matches (V.activity_types ++ V.intransitive_types) (V.types it)
      then N.collection_iri (codes "activities") base
      else N.collection_iri (codes "objects") base

  type_label : V.Item → Text
  unfolding to_lower
  type_label it = elim (N.type_text it) [ none ↦ codes "tag" | some t ↦ to_lower t ]

  -- The counter, the item, its id and the error; the counter goes up only where the item can be set.
  abbrev pub Numbered : Type 0
  Numbered = ℕ × V.Item × Iri × Option Fault

  numbered : ℕ → V.Item → Iri → Option Fault → Numbered
  unfolding type_label
  numbered cnt it base (some e) = (cnt, it, V.link it, some e)
  numbered cnt it base none =
      let id = N.add_path base (type_label it ++ (codes "-" ++ append_uint (cnt + 1))) in
      let it' = N.with_id it id in (cnt + 1, it', V.link it', none)

  -- `GenerateID` of the integration tests
  unfoldable pub stable_id : ℕ → V.Item → Iri → V.Item → Numbered
  unfolding stable_base collection_base numbered
  stable_id cnt it part_of by =
      let base = collection_base it (stable_base it part_of by) in
      if N.is_link it
      then numbered cnt it base (N.on_link it)
      else if V.is_object it
      then numbered cnt it base (N.on_object it)
      else (cnt, it, V.link it, none)
