-- ===== src/Control/Signer.antt =====
-- `LoadLocalActorWithKey` and `ActorClient` of base.go: the actor and the key that requests to
-- other servers are signed with.
pub mod Laws
use fedbox.Prelude.{
  Bool, true, false, not, ◌&&◌, Option, none, some, List, [], ◌∷◌, ◌++◌, Text, codes, if◌then◌else◌,
}
use fedbox.Fault.{Fault, Result, ok, err}
use fedbox.Vocab.{Vocab, Iri, CollectionPath}

-- The storage of actors and keys, with `ToActor`, `Split` and the test of an actor for anonymity
pub record Signing (V : Vocab) : Type 1 where
  pub State : Type 0
  pub PrivateKey : Type 0
  pub load : State → Iri → Result V.Item
  -- whether the storage has `LoadKey`; an error may come with a key
  pub is_key_storage : Bool
  pub load_key : State → Iri → Option PrivateKey × Option Fault
  pub to_actor : V.Item → Result V.Item
  pub equal : Iri → Iri → Bool
  pub split : Iri → Iri × CollectionPath
  pub is_anonymous : V.Item → Bool

module _ (V : Vocab) (S : Signing V) where
  -- The actor, its key and the error
  abbrev pub Signer : Type 0
  Signer = V.Item × Option S.PrivateKey × Option Fault

  abbrev pub sign_actor_id : Iri → Iri
  sign_actor_id i = if V.valid_collection (S.split i).1 then (S.split i).0 else i

  key_of : V.Item → Iri → S.State → Signer
  key_of act i s =
      let (key, e) = S.load_key s i in
      if not S.is_key_storage then (act, none, none) else (act, key, e)

  loaded : V.Item → Option S.PrivateKey → Iri → S.State → Signer
  unfolding key_of
  loaded service key i s = elim (S.load s i) [
    | err e ↦ (service, key, some e)
    | ok it ↦ elim (S.to_actor it) [ err e ↦ (service, key, some e) | ok act ↦ key_of act i s ]
  ]

  -- For the service and its private key, if it has one
  unfoldable pub load_local_actor_with_key : V.Item → Option S.PrivateKey → Iri → S.State → Signer
  unfolding loaded
  load_local_actor_with_key service none i s = loaded service none (sign_actor_id i) s
  load_local_actor_with_key service (some key) i s =
      if S.equal (V.link service) i
      then (service, some key, none)
      else loaded service (some key) (sign_actor_id i) s

  -- The actor is missing where an object is none.
  object_signer : V.Item → S.State → Option V.Item × Option S.PrivateKey
  object_signer actor s = elim (S.to_actor actor) [
    | err e ↦ (none, none)
    | ok act ↦ (some act, (S.load_key s (V.link actor)).0)
  ]

  link_signer : Signer → Option V.Item × Option S.PrivateKey
  link_signer (act, key, e) = (some act, key)

  both : Option V.Item × Option S.PrivateKey → Option (V.Item × S.PrivateKey)
  both (some act, some key) = some (act, key)
  both (some act, none) = none
  both (none, key) = none

  -- Whom `ActorClient` signs for, and by which key; errors are only logged.
  unfoldable pub client_signer :
      V.Item → Option S.PrivateKey → V.Item → S.State → Option (V.Item × S.PrivateKey)
  unfolding load_local_actor_with_key object_signer link_signer both
  client_signer service key actor s =
      if S.is_anonymous actor
      then none
      else if V.is_object actor
      then both (object_signer actor s)
      else both (link_signer (load_local_actor_with_key service key (V.link actor) s))
