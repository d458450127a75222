-- ===== src/Keys/Laws.antt =====
-- What saving a pair of keys does to the metadata of all actors.
use fedbox.Prelude.{
  ◌≡◌, refl, inl, inr, not, Option, none, some, Text, codes, ◌==◌, text_eq, arith, if◌then◌else◌,
  Bool-cases,
}
use mathlib.Core.Path.{fun_ext}
use fedbox.Fault.{Fault, ok, err, Result-cases}
use fedbox.Vocab.{Vocab, Iri}
use fedbox.Keys.{
  Crypto, Metadata, MetadataStore, KeyPair, encode_key_pair, metadata, keyed, Left, saved,
  save_actor, add_encoded, add_key_to_person, annotated_left, add_key_to_item,
}

module _ (C : Crypto) (V : Vocab) (M : MetadataStore V) where
  -- What is documented of the storage: metadata that is saved is loaded again, and no other
  -- metadata, and no metadata by saving an actor, is changed.
  pub record Remembers : Type 0 where
    pub saves : (s : M.State) (i : Iri) (m : Metadata) → (M.save_metadata s i m).1 ≡ none
    pub load-save :
        (s : M.State) (i j : Iri) (m : Metadata)
        → M.load_metadata (M.save_metadata s i m).0 j
          ≡ (if j == i then ok m else M.load_metadata s j)
    pub load-save_actor :
        (s : M.State) (it : V.Item) (j : Iri)
        → M.load_metadata (M.save s it).0 j ≡ M.load_metadata s j

  -- An abstract store of metadata, in which one private key is replaced
  unfoldable pub set_key : (Iri → Metadata) → Iri → Text → Iri → Metadata
  set_key f i key j = if j == i then record (f i) { private_key = key } else f j

  -- What adding a pair of keys to an item means for it: nothing, unless the item is an actor and
  -- the pair can be encoded.
  unfoldable pub intended : (Iri → Metadata) → V.Item → KeyPair C → Iri → Metadata
  unfolding set_key
  intended f it pair = elim (M.on_actor it) [
    | err e ↦ f
    | ok act ↦
        if not (V.matches V.actor_types (V.types act)) then f else elim (encode_key_pair C pair) [
          | err e ↦ f
          | ok (pub_enc, prv_enc) ↦
              set_key f (M.actor_id act) (C.encode_pem (codes "PRIVATE KEY") prv_enc)
        ]
  ]

  module _ (L : Remembers) where
    metadata-saved :
        (act : V.Item) (p : M.State × Option Fault) (j : Iri)
        → metadata C V M (saved C V M act p).0 j ≡ metadata C V M p.0 j
    unfolding saved
    metadata-saved act (s, e) j = refl

    metadata-save_actor :
        (act : V.Item) (pub_enc : Text) (p : M.State × Option Fault) (j : Iri)
        → metadata C V M (save_actor C V M act pub_enc p).0 j ≡ metadata C V M p.0 j
    unfolding save_actor
    metadata-save_actor act pub_enc (s, some e) j = refl
    metadata-save_actor act pub_enc (s, none) j =
        let k = keyed C V M act pub_enc in
        ground (arith, metadata-saved k (M.save s k) j, L.load-save_actor s k j)

    metadata-add_encoded :
        (s : M.State) (act : V.Item) (pub_enc prv_enc : Text) (j : Iri)
        → metadata C V M (add_encoded C V M s act (ok (pub_enc, prv_enc))).0 j
          ≡ set_key
              (metadata C V M s)
              (M.actor_id act)
              (C.encode_pem (codes "PRIVATE KEY") prv_enc)
              j
    unfolding add_encoded set_key
    metadata-add_encoded s act pub_enc prv_enc j =
        let m : Metadata = record (metadata C V M s (M.actor_id act)) {
          private_key = C.encode_pem (codes "PRIVATE KEY") prv_enc;
        } in
        ground (
          arith,
          metadata-save_actor act pub_enc (M.save_metadata s (M.actor_id act) m) j,
          L.load-save s (M.actor_id act) j m,
        )

    annotated_left_state : (l : Left C V M) → (annotated_left C V M l).0 ≡ l.0
    unfolding annotated_left
    annotated_left_state (s, act, e) = refl

    metadata-add_key_to_person :
        (pair : KeyPair C) (it act : V.Item) (s : M.State) (j : Iri)
        → M.on_actor it ≡ ok act
        → metadata C V M (add_key_to_person C V M pair act s).0 j
          ≡ intended (metadata C V M s) it pair j
    unfolding add_key_to_person intended
    metadata-add_key_to_person pair it act s j found =
        elim (Bool-cases (V.matches V.actor_types (V.types act))) [
          | inr other ↦ rw (found, intended, other, add_key_to_person) refl
          | inl actor ↦ elim (Result-cases (encode_key_pair C pair)) [
            | inl (e, bad) ↦ rw (found, intended, actor, add_key_to_person, bad, add_encoded) refl
            | inr ((pub_enc, prv_enc), good) ↦
                rw (found, intended, actor, add_key_to_person, good)
                  (metadata-add_encoded s act pub_enc prv_enc j)
          ]
        ]

    -- On a storage that remembers, adding a pair of keys to an item changes the metadata as is
    -- intended: the private key of that actor is replaced, its password and all other metadata are
    -- kept.
    pub metadata-add_key_to_item :
        (pair : KeyPair C) (it : V.Item) (s : M.State)
        → metadata C V M (add_key_to_item C V M pair it s).0 ≡ intended (metadata C V M s) it pair
    unfolding add_key_to_item intended
    metadata-add_key_to_item pair it s = fun_ext (λ j. elim (Result-cases (M.on_actor it)) [
      | inl (e, bad) ↦ rw (bad, intended, add_key_to_item) refl
      | inr (act, found) ↦
          rw (found, add_key_to_item, annotated_left_state)
            (metadata-add_key_to_person pair it act s j found)
    ])
