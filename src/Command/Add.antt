-- ===== src/Command/Add.antt =====
-- `AddActorCmd` and `AddCmd` of cmd-activitypub.go.
pub mod Laws
use fedbox.Prelude.{
  ℕ, suc, Bool, true, false, not, ◌&&◌, Option, none, some, List, [], ◌∷◌, ◌++◌, Text, codes, ◌==◌,
  text_eq, if◌then◌else◌,
}
use fedbox.Fault.{Fault, Result, ok, err, failed, annotated, ◌>>=◌}
use fedbox.Vocab.{Vocab, Iri}
use fedbox.Keys.{Crypto, MetadataStore, KeyPair, add_key_to_item}
use fedbox.Start.{load_pw_from_stdin}
use fedbox.Control.Backing.{Backing, store_of}
use fedbox.Control.Addition.{Adding, Added, added, refused, panicked, add_actor, add_object}
use fedbox.Control.Types.{TypeCheck, types, names}

-- The actors and objects that the commands make, and what they read of others
pub record Making (V : Vocab) (M : MetadataStore V) (B : Backing V M) : Type 0 where
  -- the actor with a type, an author, some tags and a name, and the object with a type, an author
  -- and a name
  pub actor : Text → Iri → List V.Item → Text → V.Item
  pub object : Text → Iri → Text → V.Item
  -- an object's first name, the items of the collection of all objects that are objects, and
  -- `Append` of one to an `ItemCollection`
  pub first_name : V.Item → Text
  pub all_objects : M.State → Text → List V.Item
  pub append : List V.Item → V.Item → List V.Item
  pub attributed_link : V.Item → Iri
  -- `LoadActor`, with checks on what is loaded
  pub load_actor : M.State → Iri → List TypeCheck → Result V.Item
  pub person_type : Text
  pub note_type : Text
  -- the test for the types that may be added, and for all types that are known
  pub is_valid_object : Text → Bool
  pub is_known : Text → Bool

module _ (C : Crypto) (V : Vocab) (M : MetadataStore V) (B : Backing V M)
    (A : Adding V (store_of V M B)) (K : Making V M B) where
  tagged_by : V.Item → V.Item → List V.Item → List Text → List V.Item
  tagged_by author object acc [] = acc
  tagged_by author object acc (tag ∷ tags) =
      let kept = K.first_name object == tag && K.attributed_link object == V.link author in
      tagged_by author object (if kept then K.append acc object else acc) tags

  tags_of : V.Item → List Text → List V.Item → List V.Item → List V.Item
  unfolding tagged_by
  tags_of author tags acc [] = acc
  tags_of author tags acc (object ∷ objects) =
      tags_of author tags (tagged_by author object acc tags) objects

  abbrev actor_type_of : Text → Text
  actor_type_of typ = if not (V.matches V.actor_types (typ ∷ [])) then K.person_type else typ

  -- A pair that could not be drawn leaves the actor without a key; errors are only printed, and the
  -- one of the password is not even that.
  equip_actor : Result (KeyPair C) → Text → V.Item → M.State → M.State
  unfolding add_key_to_item
  equip_actor (err e) pw act s = (B.password_set s (A.id act) pw).0
  equip_actor (ok pair) pw act s =
      let left = add_key_to_item C V M pair act s in (B.password_set left.0 (A.id left.1) pw).0

  equipped : Result (KeyPair C) → Text → M.State × Added V → M.State × Option Fault
  unfolding equip_actor
  equipped pair pw (s, added act) = (equip_actor pair pw act s, none)
  equipped pair pw (s, refused e) = (s, some e)
  equipped pair pw (s, panicked) = (s, some failed)

  -- A round of the loop over the names, for the passwords that are typed in it
  add_named :
      Text
      → Text
      → V.Item
      → List V.Item
      → Result (KeyPair C)
      → Text
      → Result Text
      → M.State
      → M.State × Option Fault
  unfolding add_actor equipped
  add_named base_url typ author tags pair name (err e) s = (s, some e)
  add_named base_url typ author tags pair name (ok pw) s = equipped pair pw (
      add_actor V (store_of V M B) A base_url
        (K.actor (actor_type_of typ) (V.link author) tags name) author s)

  abbrev go_on :
      M.State × Option Fault → (M.State → M.State × Option Fault) → M.State × Option Fault
  go_on (s, none) rest = rest s
  go_on (s, some e) rest = (s, some e)

  -- The names, with the two passwords that are typed for each, and the pair that is drawn
  add_each :
      Text
      → Text
      → V.Item
      → List V.Item
      → List (Text × Text × Text × Result (KeyPair C))
      → M.State
      → M.State × Option Fault
  unfolding add_named load_pw_from_stdin
  add_each base_url typ author tags [] s = (s, none)
  add_each base_url typ author tags ((name, pw1, pw2, pair) ∷ more) s =
      go_on (add_named base_url typ author tags pair name (load_pw_from_stdin pw1 pw2) s)
        (add_each base_url typ author tags more)

  author_of : V.Item → Iri → M.State → Result V.Item
  author_of self [] s = ok self
  author_of self (c ∷ iri) s = K.load_actor s (c ∷ iri) []

  -- `AddActorCmd.Run`, for the actor that `Self` makes
  unfoldable pub add_actor_cmd :
      Text
      → Text
      → V.Item
      → Iri
      → List Text
      → List (Text × Text × Text × Result (KeyPair C))
      → M.State
      → M.State × Option Fault
  unfolding author_of tags_of add_each
  add_actor_cmd base_url typ self by tags named s = elim (author_of self by s) [
    | err e ↦ (s, some e)
    | ok author ↦
        add_each base_url typ author (tags_of author tags [] (K.all_objects s base_url)) named s
  ]

  annotate_added : M.State × Added V → M.State × Added V
  annotate_added (s, refused e) = (s, refused (annotated e))
  annotate_added (s, added it) = (s, added it)
  annotate_added (s, panicked) = (s, panicked)

  -- `AddCmd.Run`, for a name that was given or typed. A type that is accepted is replaced.
  unfoldable pub add_cmd : Text → Text → Text → Iri → M.State → M.State × Added V
  unfolding types names add_object annotate_added
  add_cmd base_url typ name by s =
      if not (K.is_valid_object typ)
      then (s, refused failed)
      else let author_iri = if by == [] then base_url else by in
        elim (K.load_actor s author_iri (types K.is_known (K.note_type ∷ []) ∷ names (name ∷ []))) [
          | err e ↦ (s, refused e)
          | ok author ↦ annotate_added (
              add_object V (store_of V M B) A base_url (K.object K.note_type (V.link author) name)
                author s)
        ]
