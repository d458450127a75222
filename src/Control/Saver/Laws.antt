-- ===== src/Control/Saver/Laws.antt =====
-- Whose key signs the requests of a processor, and which certificates its client trusts.
use fedbox.Prelude.{
  ◌≡◌, refl, sym, ap, ◌∙◌, ◌⊎◌, Bool, if◌then◌else◌, false, Option, none, some, List, [], ◌∷◌,
  arith, Option-cases, inl, inr,
}
use fedbox.Fault.{ok}
use fedbox.Vocab.{Vocab}
use fedbox.Config.Options.{Options}
use fedbox.Control.Signer.{Signing, client_signer}
use fedbox.Control.Signer.Laws.{OwnKey, StoredKey, client_signer-StoredKey}
use fedbox.Control.Saver.{
  ClientOption, with_authorization_fn, ProcessingOption, with_client, Places, actor_client,
  saver_actor, saver,
}

module _ (V : Vocab) (S : Signing V) where
  -- The actor and the key of a client's options, the last ones of them
  abbrev pub signer_of : List (ClientOption V S) → Option (V.Item × S.PrivateKey)
  signer_of [] = none
  signer_of (with_authorization_fn act key ∷ opts) = elim (signer_of opts) [
    | none ↦ some (act, key)
    | some p ↦ some p
  ]
  signer_of (_ ∷ opts) = signer_of opts

  -- The options of the client that a processor is given, the last one
  abbrev pub client_of : List (ProcessingOption V S) → List (ClientOption V S)
  client_of [] = []
  client_of (with_client c ∷ []) = c
  client_of (_ ∷ opts) = client_of opts

  module _ (P : Places) where
    client_of-saver :
        (conf : Options) (debug_mode : Bool) (service : V.Item) (key : Option S.PrivateKey)
        (actor : V.Item) (only_local : Bool) (s : S.State)
        → client_of (saver V S P conf debug_mode service key actor only_local s)
          ≡ actor_client V S P conf debug_mode service key (saver_actor V S P service actor) s
    unfolding saver
    client_of-saver conf debug_mode service key actor only_local s = ground arith

    signer_of-actor_client :
        (conf : Options) (debug_mode : Bool) (service : V.Item) (key : Option S.PrivateKey)
        (actor : V.Item) (s : S.State)
        → signer_of (actor_client V S P conf debug_mode service key actor s)
          ≡ client_signer V S service key actor s
    unfolding actor_client
    signer_of-actor_client conf debug_mode service key actor s =
        elim (Option-cases (client_signer V S service key actor s)) [
          | inl nobody ↦ rw (nobody, actor_client) refl
          | inr (p, is) ↦ rw (is, actor_client) refl
        ]

    -- If the client of the processor that `Saver` makes signs requests for an actor, by a key, then it
    -- is not the client of the anonymous actor, and of the actor that was passed, or the service where
    -- that is nil: either it is this actor and the key is stored under its link, or the service and
    -- the key is its own, or both are stored under this actor's link, less the collection it may end
    -- in.
    pub saver-StoredKey :
        (conf : Options) (debug_mode : Bool) (service : V.Item) (own : Option S.PrivateKey)
        (actor : V.Item) (only_local : Bool) (s : S.State) (act : V.Item) (key : S.PrivateKey)
        → signer_of (client_of (saver V S P conf debug_mode service own actor only_local s))
          ≡ some (act, key)
        → let who = if V.is_nil actor then service else actor in
          let under = S.split (V.link who) in
          (S.is_anonymous who ≡ false)
          × (((S.to_actor who ≡ ok act) × ((S.load_key s (V.link who)).0 ≡ some key))
              ⊎ OwnKey V S service own act key
              ⊎ StoredKey V S
                  (if V.valid_collection under.1 then under.0 else V.link who)
                  s
                  act
                  key)
    saver-StoredKey conf debug_mode service own actor only_local s act key is =
        let who = saver_actor V S P service actor in
        client_signer-StoredKey V S service who act own s key (
          sym (signer_of-actor_client conf debug_mode service own who s)
          ∙ sym (ap signer_of (client_of-saver conf debug_mode service own actor only_local s))
          ∙ is)
