-- ===== src/Control/Signer/Laws.antt =====
-- Whose key signs.
use fedbox.Prelude.{◌≡◌, ap, ◌∙◌, ◌⊎◌, inl, inr, false, Option, none, some, arith, Bool-cases}
use fedbox.Fault.{Fault, ok, Result-cases}
use fedbox.Vocab.{Vocab, Iri}
use fedbox.Control.Signer.{
  Signing, Signer, sign_actor_id, key_of, loaded, load_local_actor_with_key, object_signer,
  link_signer, both, client_signer,
}

module _ (V : Vocab) (S : Signing V) where
  -- The key is stored under an IRI, and the actor is of what is stored under it.
  pub record StoredKey (i : Iri) (s : S.State) (act : V.Item) (key : S.PrivateKey) : Type 0 where
    pub item : V.Item
    pub found : S.load s i ≡ ok item
    pub is_actor : S.to_actor item ≡ ok act
    pub held : (S.load_key s i).0 ≡ some key

  -- The actor is the service, and the key is the one it has.
  abbrev pub OwnKey : V.Item → Option S.PrivateKey → V.Item → S.PrivateKey → Type 0
  OwnKey service own act key = (act ≡ service) × (own ≡ some key)

  key_of-some :
      (who act : V.Item) (i : Iri) (s : S.State) (key : S.PrivateKey) (e : Option Fault)
      → key_of V S who i s ≡ (act, some key, e)
      → (who ≡ act) × ((S.load_key s i).0 ≡ some key)
  unfolding key_of
  key_of-some who act i s key e h = ground arith

  loaded-StoredKey :
      (service act : V.Item) (own : Option S.PrivateKey) (i : Iri) (s : S.State)
      (key : S.PrivateKey) (e : Option Fault)
      → loaded V S service own i s ≡ (act, some key, e)
      → OwnKey service own act key ⊎ StoredKey i s act key
  unfolding loaded
  loaded-StoredKey service act own i s key e h = elim (Result-cases (S.load s i)) [
    | inl (bad, lost) ↦ inl (ground arith)
    | inr (it, found) ↦ elim (Result-cases (S.to_actor it)) [
      | inl (bad, none_of) ↦ inl (ground arith)
      | inr (who, is) ↦
          let got = key_of-some who act i s key e (ground arith) in
          inr (record { item = it; found = found; is_actor = is ∙ ap ok got.0; held = got.1 })
    ]
  ]

  load_local_actor_with_key-StoredKey :
      (service act : V.Item) (own : Option S.PrivateKey) (i : Iri) (s : S.State)
      (key : S.PrivateKey) (e : Option Fault)
      → load_local_actor_with_key V S service own i s ≡ (act, some key, e)
      → OwnKey service own act key ⊎ StoredKey (sign_actor_id V S i) s act key
  unfolding load_local_actor_with_key
  load_local_actor_with_key-StoredKey service act none i s key e h =
      loaded-StoredKey service act none (sign_actor_id V S i) s key e h
  load_local_actor_with_key-StoredKey service act (some own) i s key e h =
      elim (Bool-cases (S.equal (V.link service) i)) [
        | inl same ↦ inl (ground arith)
        | inr other ↦
            loaded-StoredKey service act (some own) (sign_actor_id V S i) s key e (ground arith)
      ]

  both-some :
      (p : Option V.Item × Option S.PrivateKey) (act : V.Item) (key : S.PrivateKey)
      → both V S p ≡ some (act, key)
      → p ≡ (some act, some key)
  unfolding both
  both-some (some who, some own) act key h = ground arith
  both-some (some who, none) act key h = ground arith
  both-some (none, own) act key h = ground arith

  object_signer-some :
      (actor act : V.Item) (s : S.State) (key : S.PrivateKey)
      → object_signer V S actor s ≡ (some act, some key)
      → (S.to_actor actor ≡ ok act) × ((S.load_key s (V.link actor)).0 ≡ some key)
  unfolding object_signer
  object_signer-some actor act s key h = elim (Result-cases (S.to_actor actor)) [
    | inl (bad, none_of) ↦ ground arith
    | inr (who, is) ↦ ground arith
  ]

  link_signer-some :
      (p : Signer V S) (act : V.Item) (key : S.PrivateKey)
      → link_signer V S p ≡ (some act, some key)
      → (e : Option Fault) × (p ≡ (act, some key, e))
  unfolding link_signer
  link_signer-some (who, own, e) act key h = (e, ground arith)

  -- If `ActorClient` signs requests for an actor, by a key, then the client is not for the anonymous
  -- actor, and either the actor is the one that was passed and the key is stored under its link, or
  -- the actor is the service and the key is its own, or both are stored under the link that was
  -- passed, less the collection it may end in.
  pub client_signer-StoredKey :
      (service actor act : V.Item) (own : Option S.PrivateKey) (s : S.State) (key : S.PrivateKey)
      → client_signer V S service own actor s ≡ some (act, key)
      → (S.is_anonymous actor ≡ false)
        × (((S.to_actor actor ≡ ok act) × ((S.load_key s (V.link actor)).0 ≡ some key))
            ⊎ OwnKey service own act key
            ⊎ StoredKey (sign_actor_id V S (V.link actor)) s act key)
  unfolding client_signer
  client_signer-StoredKey service actor act own s key h = elim (Bool-cases (S.is_anonymous actor)) [
    | inl anonymous ↦ ground arith
    | inr known ↦ elim (Bool-cases (V.is_object actor)) [
      | inl object ↦
          let got = both-some (object_signer V S actor s) act key (ground arith) in
          (known, inl (object_signer-some actor act s key got))
      | inr link ↦
          let local = load_local_actor_with_key V S service own (V.link actor) s in
          let got = both-some (link_signer V S local) act key (ground arith) in
          let (e, is) = link_signer-some local act key got in
          (
            known,
            inr (load_local_actor_with_key-StoredKey service act own (V.link actor) s key e is),
          )
    ]
  ]
