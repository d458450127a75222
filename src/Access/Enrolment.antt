-- ===== src/Access/Enrolment.antt =====
-- A pair of keys that is added to an actor, and access by it.
use fedbox.Prelude.{◌≡◌, refl, ap, ◌∙◌, true, Option, none, some, Text, codes, ==_refl, text_eq}
use fedbox.Fault.{Result, ok}
use fedbox.Vocab.{Vocab, Iri}
use fedbox.Keys.{Crypto, MetadataStore, KeyPair, encode_key_pair, metadata, add_key_to_item}
use fedbox.Keys.Laws.{Remembers, intended, set_key, metadata-add_key_to_item}
use fedbox.Access.{
  Accounts, ActorKey, rsa, ecdsa, ed25519, other_key, Context, known_actor, published_key,
  session_key, compare_keys, public_key_check, admit, ssh_auth_public_key,
}
use fedbox.Access.Laws.{Holds}

module _ (C : Crypto) (V : Vocab) (M : MetadataStore V) (A : Accounts V) (view : M.State → A.State)
    (decode : Text → Result (ActorKey A.PublicKey)) where
  -- The key of an actor is read from its metadata.
  abbrev ReadsMetadata : Type 0
  ReadsMetadata =
      (s : M.State) (i : Iri) → A.load_key (view s) i ≡ decode (metadata C V M s i).private_key

  Holds-compare_keys :
      (actor : V.Item) (stored : ActorKey A.PublicKey) (k : A.PublicKey)
      → Holds V A stored k
      → compare_keys V A actor stored k ≡ ok (actor, true)
  unfolding compare_keys Holds
  Holds-compare_keys actor (rsa key) k h = ap (λ b. ok (actor, b)) h
  Holds-compare_keys actor (ecdsa key) k h = ap (λ b. ok (actor, b)) h
  Holds-compare_keys actor (ed25519 none) k h = elim h [ ]
  Holds-compare_keys actor (ed25519 (some key)) k h = ap (λ b. ok (actor, b)) h
  Holds-compare_keys actor other_key k h = elim h [ ]

  added_key :
      (L : Remembers C V M) (pair : KeyPair C) (it act : V.Item) (s : M.State)
      (pub_enc prv_enc : Text)
      → M.on_actor it ≡ ok act
      → V.matches V.actor_types (V.types act) ≡ true
      → encode_key_pair C pair ≡ ok (pub_enc, prv_enc)
      → (metadata C V M (add_key_to_item C V M pair it s).0 (M.actor_id act)).private_key
        ≡ C.encode_pem (codes "PRIVATE KEY") prv_enc
  unfolding intended set_key
  added_key L pair it act s pub_enc prv_enc is_actor actor encoded =
      ap (λ f. (f (M.actor_id act)).private_key) (metadata-add_key_to_item C V M L pair it s)
      ∙ rw (is_actor, intended, actor, encoded, set_key, ==_refl (M.actor_id act)) refl

  -- On a storage that remembers, and whose keys are read from the metadata: once a pair of keys that
  -- can be encoded has been added to an actor, a public key that fits what its private key is decoded
  -- to lets in, under the id of the actor, the actor that is then loaded by this id, if the key that
  -- this one publishes can be read.
  pub ssh_auth_public_key-add_key_to_item :
      (L : Remembers C V M) (reads : ReadsMetadata) (pair : KeyPair C) (it act : V.Item)
      (s : M.State) (pub_enc prv_enc : Text) (stored : ActorKey A.PublicKey) (sent : A.PublicKey)
      (known actor : V.Item) (published : Option A.PublicKey) (ctx : Context V A) (service : V.Item)
      → M.on_actor it ≡ ok act
      → V.matches V.actor_types (V.types act) ≡ true
      → encode_key_pair C pair ≡ ok (pub_enc, prv_enc)
      → decode (C.encode_pem (codes "PRIVATE KEY") prv_enc) ≡ ok stored
      → Holds V A stored sent
      → A.load (view (add_key_to_item C V M pair it s).0) (M.actor_id act) ≡ ok known
      → A.to_actor known ≡ ok actor
      → published_key V A actor ≡ ok published
      → ssh_auth_public_key V A ctx service
          (M.actor_id act)
          (some sent)
          (view (add_key_to_item C V M pair it s).0)
        ≡ (some actor, true)
  unfolding ssh_auth_public_key public_key_check known_actor session_key admit
  ssh_auth_public_key-add_key_to_item L reads pair it act s pub_enc prv_enc stored sent known actor
        published ctx service is_actor typed encoded decoded holds loaded to pem =
      let key : A.load_key (view (add_key_to_item C V M pair it s).0) (M.actor_id act) ≡ ok stored =
        reads (add_key_to_item C V M pair it s).0 (M.actor_id act)
        ∙ ap decode (added_key L pair it act s pub_enc prv_enc is_actor typed encoded)
        ∙ decoded in
      rw (loaded, known_actor, key, to, pem, Holds-compare_keys actor stored sent holds) refl
