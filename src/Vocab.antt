-- ===== src/Vocab.antt =====
-- The items of the package go-ap/activitypub, which is not part of this repository: their type and
-- the functions that the handlers and commands call on them.
use fedbox.Prelude.{◌≡◌, Bool, Option, List, [], map, Text}
use fedbox.Fault.{Result, ok}

abbrev pub Iri : Type 0
Iri = Text

-- A name such as "inbox"
abbrev pub CollectionPath : Type 0
CollectionPath = Text

pub record Vocab : Type 1 where
  pub Item : Type 0
  pub is_nil : Item → Bool
  pub nil : Item
  -- `GetLink` and `GetID`
  pub link : Item → Iri
  -- the type names of `GetType`, and whether one of a list of types is among them (`Match`)
  pub types : Item → List Text
  pub matches : List Text → List Text → Bool
  pub delete_type : Text
  pub tombstone_type : Text
  pub object_type : Text
  pub actor_type : Text
  pub activity_type : Text
  pub activity_types : List Text
  pub intransitive_types : List Text
  pub actor_types : List Text
  pub object_types : List Text
  pub is_object : Item → Bool
  pub is_activity : Item → Bool
  pub is_collection : Item → Bool
  pub is_item_collection : Item → Bool
  -- `OnCollectionIntf` followed by `Collection`
  pub members : Item → Result (List Item)
  -- the assertion that an item is an `ItemCollection`: its items, and none where it is no such list
  pub as_items : Item → List Item
  -- a collection whose members were changed in place
  pub map_members : (Item → Item) → Item → Item
  pub clean_recipients : Item → Item
  -- the recipients in the properties bto and bcc
  pub hidden : Item → List Iri
  -- the recipients and the author of an item
  pub to : Item → List Iri
  pub bto : Item → List Iri
  pub cc : Item → List Iri
  pub bcc : Item → List Iri
  pub attributed_to : Item → Option Iri
  -- the actor of an activity, nil if it has none, and `ToActor`, with the bare actor of a link where
  -- that fails
  pub actor_of : Item → Item
  pub to_actor : Item → Item
  -- the items for which `OnObject` calls its function: an object, or each of several
  pub objects : Item → List Item
  -- `ValidCollectionIRI`
  pub valid_collection_iri : Iri → Bool
  pub iri_item : Iri → Item
  -- `CollectionPath.Of`
  pub of : CollectionPath → Item → Item
  -- the second result of `Split`
  pub last_collection : Iri → CollectionPath
  pub iri_equal : Iri → Iri → Bool
  pub public_ns : Iri
  pub unmarshal : Text → Result Item
  pub unknown : CollectionPath
  pub inbox : CollectionPath
  pub outbox : CollectionPath
  -- two constants of go-ap/client
  pub content_type_json_activity : Text
  pub content_type_json_ld : Text
  pub valid_collections : List CollectionPath
  -- `filters.ValidCollection`
  pub valid_collection : CollectionPath → Bool

-- What is documented of `CleanRecipients`: it empties bto and bcc and leaves the members alone; and
-- changing the members of a collection leaves its own properties alone.
pub record CleansRecipients (V : Vocab) : Type 0 where
  pub hidden-clean : (it : V.Item) → V.hidden (V.clean_recipients it) ≡ []
  pub members-clean : (it : V.Item) → V.members (V.clean_recipients it) ≡ V.members it
  pub hidden-map : (f : V.Item → V.Item) (it : V.Item) → V.hidden (V.map_members f it) ≡ V.hidden it
  pub members-map :
      (f : V.Item → V.Item) (it : V.Item) (xs : List V.Item)
      → V.members it ≡ ok xs
      → V.members (V.map_members f it) ≡ ok (map f xs)
