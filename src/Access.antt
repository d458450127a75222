-- ===== src/Access.antt =====
-- ssh.go: who is let in by a password or a public key.
pub mod Laws
pub mod Server
pub mod Session
pub mod Enrolment
use fedbox.Prelude.{Bool, true, false, Option, none, some, Text, if◌then◌else◌}
use fedbox.Fault.{Fault, Result, ok, err, failed, ◌>>=◌}
use fedbox.Vocab.{Vocab, Iri}

-- The kinds of private keys that `publicKeyCheck` tells apart, each given by its public key; that of
-- an ed25519 key is asserted to have the right type.
pub data ActorKey (K : Type 0) : Type 0 where
  rsa ecdsa : K → ActorKey K
  ed25519 : Option K → ActorKey K
  other_key : ActorKey K

-- The storage, and the packages crypto, encoding/pem and x509
pub record Accounts (V : Vocab) : Type 1 where
  pub State : Type 0
  pub PublicKey : Type 0
  pub load : State → Iri → Result V.Item
  pub load_key : State → Iri → Result (ActorKey PublicKey)
  pub password_check : State → Iri → Text → Option Fault
  -- `ToActor`, and `OnActor` on a single item
  pub to_actor : V.Item → Result V.Item
  -- `PublicKey.PublicKeyPem` of an actor
  pub public_key_pem : V.Item → Text
  pub decode_pem : Text → Option Text
  pub parse_pkix : Text → Option PublicKey
  pub parse_pkcs1 : Text → Result PublicKey
  pub equal_keys : PublicKey → PublicKey → Bool
  -- `Equals` of two IRIs without regard to the scheme
  pub equals : Iri → Iri → Bool

module _ (V : Vocab) (A : Accounts V) where
  -- The actor of the session, which the handlers put into the context
  abbrev pub Context : Type 0
  Context = Option V.Item

  pw_check : Iri → Text → A.State → Result (V.Item × Bool)
  pw_check id pw s = do
    maybe_actor ← A.load s id
    actor ← A.to_actor maybe_actor
    elim (A.password_check s (V.link actor) pw) [ none ↦ ok (actor, true) | some e ↦ err e ]

  -- The service itself may be missing from the storage.
  known_actor : V.Item → Iri → A.State → Result V.Item
  known_actor service id s = elim (A.load s id) [
    | ok it ↦ ok it
    | err e ↦ if A.equals (V.link service) id then ok service else err e
  ]

  -- The key that the actor publishes: none if it is no PEM block
  unfoldable pub published_key : V.Item → Result (Option A.PublicKey)
  published_key act = elim (A.decode_pem (A.public_key_pem act)) [
    | none ↦ ok none
    | some bytes ↦ elim (A.parse_pkix bytes) [
      | some key ↦ ok (some key)
      | none ↦ elim (A.parse_pkcs1 bytes) [ err e ↦ err e | ok key ↦ ok (some key) ]
    ]
  ]

  session_key : Option A.PublicKey → Result A.PublicKey
  session_key none = err failed
  session_key (some key) = ok key

  -- The published key is compared for the log only.
  compare_keys : V.Item → ActorKey A.PublicKey → A.PublicKey → Result (V.Item × Bool)
  compare_keys actor (rsa key) k = ok (actor, A.equal_keys key k)
  compare_keys actor (ecdsa key) k = ok (actor, A.equal_keys key k)
  compare_keys actor (ed25519 none) k = ok (actor, false)
  compare_keys actor (ed25519 (some key)) k = ok (actor, A.equal_keys key k)
  compare_keys actor other_key k = err failed

  public_key_check : V.Item → Iri → Option A.PublicKey → A.State → Result (V.Item × Bool)
  unfolding known_actor published_key session_key compare_keys
  public_key_check service id sess_key s = do
    maybe_actor ← known_actor service id s
    actor_key ← A.load_key s id
    actor ← A.to_actor maybe_actor
    published ← published_key actor
    k ← session_key sess_key
    compare_keys actor actor_key k

  -- What both handlers do with the result of a check
  admit : Context → Result (V.Item × Bool) → Context × Bool
  admit ctx (err e) = (ctx, false)
  admit ctx (ok (actor, true)) = (some actor, true)
  admit ctx (ok (actor, false)) = (ctx, false)

  unfoldable pub ssh_auth_pw : Context → Iri → Text → A.State → Context × Bool
  unfolding pw_check admit
  ssh_auth_pw ctx user pw s = admit ctx (pw_check user pw s)

  unfoldable pub ssh_auth_public_key :
      Context → V.Item → Iri → Option A.PublicKey → A.State → Context × Bool
  unfolding public_key_check admit
  ssh_auth_public_key ctx service user key s = admit ctx (public_key_check service user key s)
