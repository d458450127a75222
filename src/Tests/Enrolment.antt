-- ===== src/Tests/Enrolment.antt =====
-- Access by a key that was added to an actor, at a small storage.
use fedbox.Prelude.{
  ℕ, ◌≡◌, refl, true, none, some, [], ◌∷◌, Text, ◌==◌, nat_eq, text_eq, if◌then◌else◌,
}
use fedbox.Fault.{Result, ok, err, failed}
use fedbox.Keys.{encode_key_pair, metadata, add_key_to_item}
use fedbox.Access.{Accounts, ActorKey, ed25519, published_key, ssh_auth_public_key}
use fedbox.Access.Laws.{Holds}
use fedbox.Access.Enrolment.{ssh_auth_public_key-add_key_to_item}
use fedbox.Tests.World.{
  nothing, vocab, crypto, vault, Vault, empty_vault, vault_remembers, backing, alice, pair,
  doc_link,
}

abbrev decode_five : Text → Result (ActorKey ℕ)
decode_five t = if t == [] then err failed else ok (ed25519 (some 5))

abbrev vault_accounts : Accounts vocab
vault_accounts = record {
  State = Vault;
  PublicKey = ℕ;
  load = λ s i. backing.load s i [];
  load_key = λ s i. decode_five (metadata crypto vocab vault s i).private_key;
  password_check = λ s i pw. none;
  to_actor = ok;
  public_key_pem = λ d. [];
  decode_pem = λ t. none;
  parse_pkix = λ t. none;
  parse_pkcs1 = λ t. err failed;
  equal_keys = λ a b. a == b;
  equals = λ a b. a == b;
}

ssh_auth_public_key-add_key_to_item_example :
    ssh_auth_public_key vocab vault_accounts none nothing
      (doc_link alice)
      (some 5)
      (add_key_to_item crypto vocab vault pair alice empty_vault).0
    ≡ (some alice, true)
unfolding encode_key_pair Holds published_key add_key_to_item
ssh_auth_public_key-add_key_to_item_example =
    ssh_auth_public_key-add_key_to_item crypto vocab vault vault_accounts (λ s. s) decode_five
      vault_remembers (λ s i. refl) pair alice alice empty_vault (5 ∷ []) (5 ∷ [])
      (ed25519 (some 5)) 5 alice alice none none nothing refl refl refl refl refl refl refl refl
