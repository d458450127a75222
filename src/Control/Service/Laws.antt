-- ===== src/Control/Service/Laws.antt =====
-- What is in the storage once the service has been created.
use fedbox.Prelude.{
  ◌≡◌, refl, sym, ap, ◌∙◌, inl, inr, Option, none, some, List, [], ◌∷◌, Text, arith,
}
use fedbox.Fault.{Fault, ok, Result-cases}
use fedbox.Vocab.{Vocab}
use fedbox.Keys.{Crypto, MetadataStore, KeyPair, add_key_to_item}
use fedbox.Control.Backing.{Backing, store_of}
use fedbox.Control.Addition.{Adding, Added, added, refused, panicked, add_actor}
use fedbox.Control.Service.{
  Founding, Base, Step, then_do, set_password, set_key, joined, save_streams, save_streams_of,
  equip_service, with_added, create_service,
}

module _ (C : Crypto) (V : Vocab) (M : MetadataStore V) (B : Backing V M)
    (A : Adding V (store_of V M B)) (F : Founding V) where
  -- The state after saving the collection of a stream
  abbrev after : V.Item → V.Item → M.State → M.State
  after service stream s = (B.save s (F.stream_collection service (A.id stream))).0

  -- All streams are saved, one after the other, whatever the errors.
  saved_all : V.Item → List V.Item → M.State → M.State
  saved_all service [] s = s
  saved_all service (stream ∷ streams) s =
      saved_all service streams (B.save s (F.stream_collection service (A.id stream))).0

  -- No save of a stream, each in the state that the ones before it left, has an error.
  AllSaved : V.Item → List V.Item → M.State → Type 0
  AllSaved service [] s = Unit
  AllSaved service (stream ∷ streams) s =
      ((it : V.Item) × ((B.save s (F.stream_collection service (A.id stream))).1 ≡ ok it))
      × AllSaved service streams (B.save s (F.stream_collection service (A.id stream))).0

  save_streams-saved_all :
      (service : V.Item) (streams : List V.Item) (multi : Option Fault) (s : M.State)
      → (save_streams C V M B A F service streams multi s).0 ≡ saved_all service streams s
  unfolding save_streams saved_all
  save_streams-saved_all service [] multi s = refl
  save_streams-saved_all service (stream ∷ streams) multi s =
      save_streams-saved_all service streams _ _

  save_streams-some :
      (service : V.Item) (streams : List V.Item) (e : Fault) (s : M.State)
      → (e' : Fault) × ((save_streams C V M B A F service streams (some e) s).1 ≡ some e')
  unfolding save_streams joined
  save_streams-some service [] e s = (e, refl)
  save_streams-some service (stream ∷ streams) e s =
      elim (Result-cases (B.save s (F.stream_collection service (A.id stream))).1) [
        | inl (e', bad) ↦
            let it =
              save_streams-some service streams (F.join (some e) e') (after service stream s) in
            (it.0, rw (bad, save_streams, joined) it.1)
        | inr (it, good) ↦
            let it = save_streams-some service streams e (after service stream s) in
            (it.0, rw (good, save_streams, joined) it.1)
      ]

  save_streams-AllSaved :
      (service : V.Item) (streams : List V.Item) (s : M.State)
      → (save_streams C V M B A F service streams none s).1 ≡ none
      → AllSaved service streams s
  unfolding save_streams joined AllSaved
  save_streams-AllSaved service [] s h = tt
  save_streams-AllSaved service (stream ∷ streams) s h =
      elim (Result-cases (B.save s (F.stream_collection service (A.id stream))).1) [
        | inl (e', bad) ↦
            let it = save_streams-some service streams (F.join none e') (after service stream s) in
            ground arith
        | inr (it, good) ↦ (
          (it, good),
          save_streams-AllSaved service streams (after service stream s) (ground arith),
        )
      ]

  save_streams_of-AllSaved :
      (service self : V.Item) (s s' : M.State)
      → save_streams_of C V M B A F service self s ≡ (s', none)
      → (actor : V.Item) × (M.on_actor self ≡ ok actor)
        × AllSaved service (F.streams actor) s
        × (s' ≡ saved_all service (F.streams actor) s)
  unfolding save_streams_of
  save_streams_of-AllSaved service self s s' h = elim (Result-cases (M.on_actor self)) [
    | inl (e, bad) ↦ ground arith
    | inr (actor, good) ↦
        let run : save_streams C V M B A F service (F.streams actor) none s ≡ (s', none) =
          ground arith in
        (
          actor,
          good,
          save_streams-AllSaved service (F.streams actor) s (ap (λ p. p.1) run),
          sym (ap (λ p. p.0) run) ∙ save_streams-saved_all service (F.streams actor) none s,
        )
  ]

  then_do-none :
      (p : Step C V M B A F) (next : M.State → Step C V M B A F) (s : M.State)
      → then_do C V M B A F p next ≡ (s, none)
      → (between : M.State) × (p ≡ (between, none)) × (next between ≡ (s, none))
  then_do-none (t, none) next s h = (t, refl, h)
  then_do-none (t, some e) next s h = ground arith

  -- A password that was given was set for the service; without one nothing was done.
  PasswordSet : Option Text → V.Item → M.State → M.State → Type 0
  PasswordSet none service s t = t ≡ s
  PasswordSet (some pw) service s t = B.password_set s (A.id service) pw ≡ (t, none)

  -- A key that was given was added to the item; without one nothing was done.
  KeyAdded : Option (KeyPair C) → V.Item → M.State → M.State → Type 0
  KeyAdded none self s t = t ≡ s
  KeyAdded (some pair) self s t =
      (keyed : V.Item) × (add_key_to_item C V M pair self s ≡ (t, keyed, none))

  set_password-PasswordSet :
      (pw : Option Text) (service : V.Item) (s t : M.State)
      → set_password C V M B A F pw service s ≡ (t, none)
      → PasswordSet pw service s t
  unfolding set_password PasswordSet
  set_password-PasswordSet none service s t h = ground arith
  set_password-PasswordSet (some pw) service s t h = h

  set_key-KeyAdded :
      (pair : Option (KeyPair C)) (self : V.Item) (s t : M.State)
      → set_key C V M B A F pair self s ≡ (t, none)
      → KeyAdded pair self s t
  unfolding set_key KeyAdded
  set_key-KeyAdded none self s t h = ground arith
  set_key-KeyAdded (some pair) self s t h =
      let left = add_key_to_item C V M pair self s in (left.1, ap (λ p. (p.0, left.1, p.1)) h)

  -- What was done when the service is there, from the state in which its actor is saved
  record Equipped (pair : Option (KeyPair C)) (pw : Option Text) (self service : V.Item)
      (s s' : M.State) : Type 0 where
    with_pw : M.State
    with_key : M.State
    pub actor : V.Item
    -- the password is set after the client is saved, with an error or without
    pub password :
        PasswordSet pw service
          (B.save_client s
            (record { id = A.id service; secret = []; redirect_uri = []; user_data = [] })).0
          with_pw
    pub key : KeyAdded pair self with_pw with_key
    pub is_actor : M.on_actor self ≡ ok actor
    pub streams : AllSaved service (F.streams actor) with_key
    pub last : s' ≡ saved_all service (F.streams actor) with_key

  equip_service-Equipped :
      (pair : Option (KeyPair C)) (pw : Option Text) (self service : V.Item) (s s' : M.State)
      → equip_service C V M B A F pair pw self service s ≡ (s', none)
      → Equipped pair pw self service s s'
  unfolding equip_service
  equip_service-Equipped pair pw self service s s' h =
      let (with_key, equipped, saved) = then_do-none _ _ s' h in
      let (with_pw, password, key) = then_do-none _ _ with_key equipped in
      let (actor, is_actor, streams, last) =
        save_streams_of-AllSaved service self with_key s' saved in
      record {
        with_pw = with_pw;
        with_key = with_key;
        actor = actor;
        password = set_password-PasswordSet pw service _ with_pw password;
        key = set_key-KeyAdded pair self with_pw with_key key;
        is_actor = is_actor;
        streams = streams;
        last = last;
      }

  with_added-Equipped :
      (pair : Option (KeyPair C)) (pw : Option Text) (self : V.Item) (p : M.State × Added V)
      (s' : M.State)
      → with_added C V M B A F pair pw self p ≡ (s', none)
      → (s : M.State) × (service : V.Item) × (p ≡ (s, added service))
        × Equipped pair pw self service s s'
  unfolding with_added
  with_added-Equipped pair pw self (s, refused e) s' h = ground arith
  with_added-Equipped pair pw self (s, panicked) s' h = ground arith
  with_added-Equipped pair pw self (s, added service) s' h =
      (s, service, refl, equip_service-Equipped pair pw self service s s' h)

  -- `CreateService` made a service of an item.
  pub Created :
      Text
      → Base C V M B A F
      → V.Item
      → Option (KeyPair C)
      → Option Text
      → M.State
      → Base C V M B A F
      → M.State
      → Type 0
  Created base_url ctl self pair pw s ctl' s' =
      (copy : V.Item) × (saved : M.State) × (service : V.Item) × (F.to_actor self ≡ ok copy)
      × (ctl' ≡ record ctl { service = F.published copy })
      × (add_actor V (store_of V M B) A base_url (F.published copy) (F.published copy) s
          ≡ (saved, added service))
      × Equipped pair pw self service saved s'

  -- If `CreateService` returns without an error, then the item is an actor, whose copy with the
  -- time of now is the service of the application and was added as an actor; after that a client
  -- with its id and nothing else was saved, with an error or without, a password that was given was
  -- set in the storage for the id of the service, a key that was given was added by `AddKeyToItem`
  -- to the item itself, and the collection of each stream of the item was saved last, all without an
  -- error.
  pub create_service-Created :
      (base_url : Text) (ctl ctl' : Base C V M B A F) (self : V.Item) (pair : Option (KeyPair C))
      (pw : Option Text) (s s' : M.State)
      → create_service C V M B A F base_url ctl self pair pw s ≡ (ctl', s', none)
      → Created base_url ctl self pair pw s ctl' s'
  unfolding create_service Created
  create_service-Created base_url ctl ctl' self pair pw s s' h =
      elim (Result-cases (F.to_actor self)) [
        | inl (e, bad) ↦ ground arith
        | inr (copy, good) ↦
            let p =
              add_actor V (store_of V M B) A base_url (F.published copy) (F.published copy) s in
            let h' = rw (good, create_service) at h in
            let run : with_added C V M B A F pair pw self p ≡ (s', none) =
              ap (λ r. (r.1, r.2)) h' in
            let (saved, service, is, equipped) = with_added-Equipped pair pw self p s' run in
            (copy, saved, service, good, sym (ap (λ r. r.0) h'), is, equipped)
      ]
