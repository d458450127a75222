-- ===== src/Command/Accounts/Laws.antt =====
-- What exporting, importing and generating keys do to the metadata of the accounts.
use fedbox.Prelude.{ℕ, suc, ◌≡◌, List, [], ◌∷◌, Text, text_eq, arith}
use fedbox.Fault.{Fault, Result, ok, err}
use fedbox.Vocab.{Vocab, Iri}
use fedbox.Keys.{Crypto, Metadata, MetadataStore, KeyPair, metadata}
use fedbox.Keys.Laws.{intended}
use fedbox.Command.Accounts.{AccountServices, export_accounts}

module _ (C : Crypto) (V : Vocab) (M : MetadataStore V) (A : AccountServices V M) where
  -- What is exported is the empty map, whatever the storage holds.
  pub export_accounts_empty :
      (s : M.State) (out : Text) → export_accounts C V M A s ≡ ok out → A.marshal [] ≡ ok out
  unfolding export_accounts
  export_accounts_empty s out h = ground arith

  -- The pair of a round, where there is one
  abbrev intended_round : (Iri → Metadata) → V.Item → Result (KeyPair C) → Iri → Metadata
  intended_round f act (err e) = f
  intended_round f act (ok pair) = intended C V M f act pair

  -- The abstract store after some rounds
  pub replay : (Iri → Metadata) → (ℕ → Result (KeyPair C)) → ℕ → List V.Item → Iri → Metadata
  replay f draws n [] = f
  replay f draws n (act ∷ acts) = replay (intended_round f act (draws n)) draws (suc n) acts

  -- Processing an update changes no metadata.
  abbrev UpdatesApart : Type 0
  UpdatesApart =
      (s : M.State) (act : V.Item) (outbox : Iri)
      → metadata C V M (A.process_update s act outbox).0 ≡ metadata C V M s
