-- ===== src/Tests/Keys.antt =====
-- The theorems on keys, accounts, signing and searching, at a small storage.
use fedbox.Prelude.{
  ℕ, ◌≡◌, refl, true, false, none, some, List, [], ◌∷◌, ◌++◌, codes, ◌==◌, text_eq, if◌then◌else◌,
  ◌⊎◌, All,
}
use mathlib.Core.List.{Memᴰ}
use fedbox.Go.Strings.{join, split}
use fedbox.Fault.{Result, ok, err, not_found}
use fedbox.Vocab.{Iri}
use fedbox.Keys.{
  KeyPair, Metadata, encode_key_pair, metadata, add_key_to_item, save_metadata_for_items,
  load_metadata_for_items,
}
use fedbox.Keys.Laws.{intended, metadata-add_key_to_item}
use fedbox.Keys.RoundTrip.{Known, save_metadata-load_metadata}
use fedbox.Command.Accounts.{export_accounts}
use fedbox.Command.Accounts.Laws.{export_accounts_empty}
use fedbox.Search.{Values, merged}
use fedbox.Search.Laws.{values_of}
use fedbox.Control.Signer.{Signing}
use fedbox.Control.Saver.{Places, saver}
use fedbox.Control.Saver.Laws.{signer_of, client_of, saver-StoredKey}
use fedbox.Control.Signer.Laws.{OwnKey, StoredKey}
use fedbox.Tests.World.{
  options, alice, bob, account_services, pair, vocab, doc_link, crypto, vault, Vault, empty_vault,
  vault_remembers,
}

-- A storage in which both have a password
abbrev with_passwords : Vault
with_passwords = record empty_vault {
  metadata =
      (doc_link alice, record { pw = codes "secret"; private_key = [] })
      ∷ (doc_link bob, record { pw = codes "hidden"; private_key = [] })
      ∷ [];
}

metadata-add_key_to_item_example :
    metadata crypto vocab vault (add_key_to_item crypto vocab vault pair alice with_passwords).0
    ≡ intended crypto vocab vault (metadata crypto vocab vault with_passwords) alice pair
metadata-add_key_to_item_example =
    metadata-add_key_to_item crypto vocab vault vault_remembers pair alice with_passwords

-- The password is kept.
kept :
    metadata crypto vocab vault
      (add_key_to_item crypto vocab vault pair alice with_passwords).0
      (doc_link alice)
    ≡ record { pw = codes "secret"; private_key = codes "PRIVATE KEY" ++ (5 ∷ []) }
unfolding add_key_to_item encode_key_pair
kept = refl

-- A codec of maps, in which each text has a line of its own
abbrev lines_of : List (Iri × Metadata) → List Iri
lines_of [] = []
lines_of ((i, m) ∷ es) = i ∷ m.pw ∷ m.private_key ∷ lines_of es

abbrev entries_of : List Iri → List (Iri × Metadata)
entries_of (i ∷ pw ∷ key ∷ ls) = (i, record { pw = pw; private_key = key }) ∷ entries_of ls
entries_of _ = []

abbrev marshal_lines : List (Iri × Metadata) → Result Iri
marshal_lines es = ok (join (lines_of es) (codes "\n"))

abbrev unmarshal_lines : Iri → Result (List (Iri × Metadata))
unmarshal_lines buf = ok (entries_of (split buf b'\n'))

abbrev both_entries : List (Iri × Metadata)
both_entries =
    (doc_link alice, record { pw = codes "secret"; private_key = [] })
    ∷ (doc_link bob, record { pw = codes "hidden"; private_key = [] })
    ∷ []

abbrev encoded_lines : Iri
encoded_lines = join (lines_of both_entries) (codes "\n")

decoded_lines : unmarshal_lines encoded_lines ≡ ok both_entries
unfolding join split
decoded_lines = refl

save_metadata-load_metadata_example :
    All
      (λ it.
        metadata crypto vocab vault
          (save_metadata_for_items crypto vocab vault unmarshal_lines encoded_lines empty_vault).0
          (doc_link it)
        ≡ metadata crypto vocab vault with_passwords (doc_link it))
      (alice ∷ bob ∷ [])
unfolding Known load_metadata_for_items
save_metadata-load_metadata_example =
    save_metadata-load_metadata crypto vocab vault vault_remembers marshal_lines unmarshal_lines
      with_passwords empty_vault (alice ∷ bob ∷ []) encoded_lines both_entries refl decoded_lines
      (record {
        among = (Memᴰ.head refl, (Memᴰ.tail (Memᴰ.head refl), tt));
        keys = (
          (record { pw = codes "secret"; private_key = [] }, Memᴰ.head refl),
          ((record { pw = codes "hidden"; private_key = [] }, Memᴰ.tail (Memᴰ.head refl)), tt),
        );
      })
      (
        (refl, record { pw = codes "secret"; private_key = [] }, refl),
        ((refl, record { pw = codes "hidden"; private_key = [] }, refl), tt),
      )

abbrev draw : ℕ → Result (KeyPair crypto)
draw n = ok pair

exported : export_accounts crypto vocab vault account_services with_passwords ≡ ok []
unfolding export_accounts
exported = refl

exported_nothing : account_services.marshal [] ≡ ok []
exported_nothing =
    export_accounts_empty crypto vocab vault account_services with_passwords [] exported

abbrev queries : List Values
queries =
    ((codes "type", codes "Person" ∷ []) ∷ (codes "name", codes "a" ∷ []) ∷ [])
    ∷ ((codes "type", codes "Service" ∷ []) ∷ [])
    ∷ []

-- Each actor has its key under its own link; nobody but alice can be loaded.
abbrev signing : Signing vocab
signing = record {
  State = Vault;
  PrivateKey = Iri;
  load = λ s i. if i == doc_link alice then ok alice else err not_found;
  is_key_storage = true;
  load_key = λ s i. (some i, none);
  to_actor = ok;
  equal = λ a b. a == b;
  split = λ i. (i, codes "none");
  is_anonymous = λ d. false;
}

abbrev places : Places
places = record { user_cache_dir = none; temp_dir = codes "/tmp"; anonymous_id = vocab.public_ns }

signed :
    signer_of vocab signing (
      client_of vocab signing
        (saver vocab signing places options false bob (some (doc_link bob)) alice true empty_vault))
    ≡ some (alice, doc_link alice)
unfolding saver
signed = refl

saver-StoredKey_example :
    (signing.is_anonymous alice ≡ false)
    × (((signing.to_actor alice ≡ ok alice)
          × ((signing.load_key empty_vault (doc_link alice)).0 ≡ some (doc_link alice)))
        ⊎ OwnKey vocab signing bob (some (doc_link bob)) alice (doc_link alice)
        ⊎ StoredKey vocab signing
            (if vocab.valid_collection (signing.split (doc_link alice)).1
              then (signing.split (doc_link alice)).0
              else doc_link alice)
            empty_vault
            alice
            (doc_link alice))
saver-StoredKey_example =
    saver-StoredKey vocab signing places options false bob (some (doc_link bob)) alice true
      empty_vault alice (doc_link alice) signed

found_values : values_of (codes "type") (merged queries []) ≡ codes "Person" ∷ codes "Service" ∷ []
unfolding merged values_of
found_values = refl
