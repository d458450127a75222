-- ===== src/Control/Service.antt =====
-- `CreateService` of base.go.
pub mod Laws
use fedbox.Prelude.{Bool, true, false, Option, none, some, List, [], ◌∷◌, Text}
use fedbox.Fault.{Fault, Result, ok, err, failed}
use fedbox.Vocab.{Vocab, Iri}
use fedbox.Keys.{Crypto, MetadataStore, KeyPair, add_key_to_item}
use fedbox.Control.Backing.{OAuthClient, Backing, store_of}
use fedbox.Control.Addition.{Adding, Added, added, refused, panicked, add_actor}

-- What the function calls of other packages besides
pub record Founding (V : Vocab) : Type 0 where
  -- `ToActor`, a copy where the item is a value
  pub to_actor : V.Item → Result V.Item
  -- an actor with the time of now as its `Published`
  pub published : V.Item → V.Item
  pub streams : V.Item → List V.Item
  -- the ordered collection with an id that has the date, the author and the audience of the service
  pub stream_collection : V.Item → Iri → V.Item
  -- `Join` of the errors so far and another one
  pub join : Option Fault → Fault → Fault

module _ (C : Crypto) (V : Vocab) (M : MetadataStore V) (B : Backing V M)
    (A : Adding V (store_of V M B)) (F : Founding V) where
  -- The fields of `Base` that change
  pub record Base : Type 0 where
    pub service : V.Item
    pub private_key : Option C.PrivateKey
    -- whether there is a storage at all
    pub has_storage : Bool

  abbrev service_client : V.Item → OAuthClient
  service_client service = record {
    id = A.id service;
    secret = [];
    redirect_uri = [];
    user_data = [];
  }

  -- The state and the first error
  abbrev pub Step : Type 0
  Step = M.State × Option Fault

  abbrev pub then_do : Step → (M.State → Step) → Step
  then_do (s, none) next = next s
  then_do (s, some e) next = (s, some e)

  unfoldable pub set_password : Option Text → V.Item → M.State → Step
  set_password none service s = (s, none)
  set_password (some pw) service s = B.password_set s (A.id service) pw

  -- The key is added to the item that was passed, and not to its copy.
  unfoldable pub set_key : Option (KeyPair C) → V.Item → M.State → Step
  unfolding add_key_to_item
  set_key none self s = (s, none)
  set_key (some pair) self s = let left = add_key_to_item C V M pair self s in (left.0, left.2)

  joined : Option Fault → Result V.Item → Option Fault
  joined multi (ok _) = multi
  joined multi (err e) = some (F.join multi e)

  -- The loop over the streams; an error does not end it.
  unfoldable pub save_streams : V.Item → List V.Item → Option Fault → M.State → Step
  unfolding joined
  save_streams service [] multi s = (s, multi)
  save_streams service (stream ∷ streams) multi s =
      let (s', r) = B.save s (F.stream_collection service (A.id stream)) in
      save_streams service streams (joined multi r) s'

  -- The collections have what they have of the saved service.
  unfoldable pub save_streams_of : V.Item → V.Item → M.State → Step
  unfolding save_streams
  save_streams_of service self s = elim (M.on_actor self) [
    | err e ↦ (s, some e)
    | ok actor ↦ save_streams service (F.streams actor) none s
  ]

  -- An error of saving the client is ignored.
  unfoldable pub equip_service : Option (KeyPair C) → Option Text → V.Item → V.Item → M.State → Step
  unfolding set_password set_key save_streams_of
  equip_service pair pw self service s =
      then_do
        (then_do (set_password pw service ((B.save_client s (service_client service)).0))
          (set_key pair self))
        (save_streams_of service self)

  with_added : Option (KeyPair C) → Option Text → V.Item → M.State × Added V → Step
  unfolding equip_service
  with_added pair pw self (s, refused e) = (s, some e)
  with_added pair pw self (s, panicked) = (s, some failed)
  with_added pair pw self (s, added service) = equip_service pair pw self service s

  -- The service is set before it is saved, and stays set when that fails.
  unfoldable pub create_service :
      Text
      → Base
      → V.Item
      → Option (KeyPair C)
      → Option Text
      → M.State
      → Base × M.State × Option Fault
  unfolding add_actor with_added
  create_service base_url ctl self pair pw s = elim (F.to_actor self) [
    | err e ↦ (ctl, s, some e)
    | ok actor ↦
        let service = F.published actor in
        let (s', e) =
          with_added pair pw self (add_actor V (store_of V M B) A base_url service service s) in
        (record ctl { service = service }, s', e)
  ]
