-- ===== src/Keys.antt =====
-- activitypub/keys.go: pairs of keys, and where they are saved.
pub mod Laws
pub mod RoundTrip
use fedbox.Prelude.{
  Bool, true, false, not, Option, none, some, List, [], ◌∷◌, ◌++◌, Text, codes, ◌==◌, text_eq,
  if◌then◌else◌,
}
use fedbox.Fault.{Fault, Result, ok, err, annotated, ◌>>=◌}
use fedbox.Vocab.{Vocab, Iri}

abbrev pub key_type_ecdsa : Text
key_type_ecdsa = codes "ECDSA"

abbrev pub key_type_ed25519 : Text
key_type_ed25519 = codes "ED25519"

abbrev pub key_type_rsa : Text
key_type_rsa = codes "RSA"

-- The types of private keys that `KeyPairFromPrivateBytes` tells apart
pub data RawKey (K : Type 0) : Type 0 where
  raw_rsa raw_ecdsa raw_ed25519_pointer raw_ed25519 : K → RawKey K
  raw_other : RawKey K

-- The packages crypto, encoding/pem, x509 and ssh. The keys that are drawn at random are fields.
pub record Crypto : Type 1 where
  pub PrivateKey : Type 0
  pub PublicKey : Type 0
  pub public : PrivateKey → PublicKey
  pub parse_raw_private_key : Text → Result (RawKey PrivateKey)
  pub generate_ed25519 : Result (PublicKey × PrivateKey)
  pub generate_rsa : Result PrivateKey
  pub generate_ecdsa : Result PrivateKey
  pub marshal_pkix : Option PublicKey → Result Text
  pub marshal_pkcs8 : Option PrivateKey → Result Text
  -- `EncodeToMemory` of a block of a type
  pub encode_pem : Text → Text → Text

pub record Metadata : Type 0 where
  pub pw : Text
  pub private_key : Text

abbrev no_metadata : Metadata
no_metadata = record { pw = []; private_key = [] }

-- The storage of metadata. A load with an error leaves the metadata empty.
pub record MetadataStore (V : Vocab) : Type 1 where
  pub State : Type 0
  pub load_metadata : State → Iri → Result Metadata
  pub save_metadata : State → Iri → Metadata → State × Option Fault
  -- whether it is a full storage, and its `Save`
  pub is_full : Bool
  pub save : State → V.Item → State × Option Fault
  pub actor_id : V.Item → Iri
  -- an actor with another public key: its id, its owner and its PEM block
  pub with_public_key : V.Item → Iri → Iri → Text → V.Item
  -- `OnActor` on a single item
  pub on_actor : V.Item → Result V.Item
  pub person_type : Text

module _ (C : Crypto) where
  pub record KeyPair : Type 0 where
    pub private : Option C.PrivateKey
    pub public : Option C.PublicKey
    pub key_type : Text

  abbrev pair_of : C.PrivateKey → Text → KeyPair
  pair_of k typ = record { private = some k; public = some (C.public k); key_type = typ }

  -- Of any other key the pair is empty, without an error.
  abbrev pair_of_raw : RawKey C.PrivateKey → KeyPair
  pair_of_raw (raw_rsa k) = pair_of k key_type_rsa
  pair_of_raw (raw_ecdsa k) = pair_of k key_type_ecdsa
  pair_of_raw (raw_ed25519_pointer k) = pair_of k key_type_ed25519
  pair_of_raw (raw_ed25519 k) = pair_of k key_type_ed25519
  pair_of_raw raw_other = record { private = none; public = none; key_type = [] }

  unfoldable pub key_pair_from_private_bytes : Text → Result KeyPair
  key_pair_from_private_bytes prv = do key ← C.parse_raw_private_key prv; ok (pair_of_raw key)

  unfoldable pub generate_key_pair : Text → Result KeyPair
  generate_key_pair typ =
      if typ == key_type_ed25519
      then C.generate_ed25519
        >>= (λ ks. ok (record { private = some (ks.1); public = some (ks.0); key_type = typ }))
      else if typ == key_type_rsa
      then C.generate_rsa >>= (λ k. ok (pair_of k typ))
      else if typ == key_type_ecdsa
      then C.generate_ecdsa >>= (λ k. ok (pair_of k typ))
      else ok (record { private = none; public = none; key_type = typ })

  -- The contents of the two blocks, the public one first
  unfoldable pub encode_key_pair : KeyPair → Result (Text × Text)
  encode_key_pair p = do
    pub_enc ← C.marshal_pkix p.public
    prv_enc ← C.marshal_pkcs8 p.private
    ok (pub_enc, prv_enc)

  module _ (V : Vocab) (M : MetadataStore V) where
    abbrev pub metadata : M.State → Iri → Metadata
    metadata s i = elim (M.load_metadata s i) [ err e ↦ no_metadata | ok m ↦ m ]

    abbrev annotate : Option Fault → Option Fault
    annotate none = none
    annotate (some e) = some (annotated e)

    -- The actor with its new public key
    abbrev pub keyed : V.Item → Text → V.Item
    keyed act pub_enc =
        M.with_public_key act (M.actor_id act ++ codes "#main") (M.actor_id act)
          (C.encode_pem (codes "PUBLIC KEY") pub_enc)

    -- The state, the actor as it is left, and the error
    abbrev pub Left : Type 0
    Left = M.State × V.Item × Option Fault

    saved : V.Item → M.State × Option Fault → Left
    saved act (s, e) = (s, act, annotate e)

    save_actor : V.Item → Text → M.State × Option Fault → Left
    unfolding saved
    save_actor act pub_enc (s, some e) = (s, act, some (annotated e))
    save_actor act pub_enc (s, none) =
        if M.is_full
        then saved (keyed act pub_enc) (M.save s (keyed act pub_enc))
        else (s, keyed act pub_enc, none)

    add_encoded : M.State → V.Item → Result (Text × Text) → Left
    unfolding save_actor
    add_encoded s act (err e) = (s, act, some e)
    add_encoded s act (ok (pub_enc, prv_enc)) = save_actor act pub_enc (
        M.save_metadata s (M.actor_id act) (record (metadata s (M.actor_id act)) {
          private_key = C.encode_pem (codes "PRIVATE KEY") prv_enc;
        }))

    unfoldable pub add_key_to_person : KeyPair → V.Item → M.State → Left
    unfolding add_encoded
    add_key_to_person pair act s =
        if not (V.matches V.actor_types (V.types act))
        then (s, act, none)
        else add_encoded s act (encode_key_pair pair)

    annotated_left : Left → Left
    annotated_left (s, act, e) = (s, act, annotate e)

    unfoldable pub add_key_to_item : KeyPair → V.Item → M.State → Left
    unfolding add_key_to_person annotated_left
    add_key_to_item pair it s = elim (M.on_actor it) [
      | err e ↦ (s, it, some (annotated e))
      | ok act ↦ annotated_left (add_key_to_person pair act s)
    ]

    unfoldable pub key_generator : Text → V.Item → M.State → Left
    unfolding add_key_to_person
    key_generator typ act s = elim (generate_key_pair typ) [
      | err e ↦ (s, act, some e)
      | ok pair ↦ add_key_to_person pair act s
    ]

    collected : List Fault → Option Fault → List Fault
    collected errs none = errs
    collected errs (some e) = errs ++ (e ∷ [])

    -- The loop over the entries, which come in the order of the map
    unfoldable pub save_entries :
        List (Iri × Metadata) → List Fault → M.State → M.State × List Fault
    unfolding collected
    save_entries [] errs s = (s, errs)
    save_entries ((i, m) ∷ entries) errs s =
        let (s', e) = M.save_metadata s i m in save_entries entries (collected errs e) s'

    -- `SaveMetadataForItems`, for the way in which jsonld decodes a map; with the errors that are
    -- joined, or the one of decoding the text
    unfoldable pub save_metadata_for_items :
        (Text → Result (List (Iri × Metadata))) → Text → M.State → M.State × List Fault
    unfolding save_entries
    save_metadata_for_items unmarshal buf s = elim (unmarshal buf) [
      | err e ↦ (s, e ∷ [])
      | ok entries ↦ save_entries entries [] s
    ]

    -- The map, as the entries that are set, the last one for a key last
    unfoldable pub load_metadata_for_items : M.State → List V.Item → List (Iri × Metadata)
    load_metadata_for_items s [] = []
    load_metadata_for_items s (it ∷ its) =
        let rest = load_metadata_for_items s its in
        if not (V.matches (M.person_type ∷ []) (V.types it))
        then rest
        else elim (M.load_metadata s (V.link it)) [ err e ↦ rest | ok m ↦ (V.link it, m) ∷ rest ]
