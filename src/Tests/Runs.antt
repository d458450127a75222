-- ===== src/Tests/Runs.antt =====
-- Runs of the commands on accounts, clients, objects and the storage.
use fedbox.Prelude.{ℕ, ◌≡◌, refl, none, some, [], ◌∷◌, ◌++◌, codes, ◌==◌, text_eq, if◌then◌else◌}
use fedbox.Fault.{ok, err, failed, not_found, annotated}
use fedbox.Search.{by_name, by_url, by_type, merged, search_actors_iri}
use fedbox.Keys.{key_type_ecdsa, encode_key_pair, generate_key_pair, key_generator}
use fedbox.Control.Bootstrap.{reset_cmd}
use fedbox.Control.Credentials.{bootstrap_cmd, exit_panic}
use fedbox.Command.OAuth.{ls_client, del_clients, add_client_cmd, add_token}
use fedbox.Command.Add.{add_actor_cmd}
use fedbox.Command.Listing.{list_cmd, export_items, info_cmd}
use fedbox.Command.Accounts.{import_accounts, gen_keys, change_password}
use fedbox.Control.Clients.{no_token}
use fedbox.Tests.World.{
  vocab, vault, crypto, empty_vault, backing, adding, founding, founders, system, store, base_url,
  self, client_services, making, list_services, no_service, with_url, poem, poems, pair,
  account_services, person,
}

query :
    merged
      (by_name (codes "a" ∷ [])
        ∷ by_type (codes "b" ∷ [])
        ∷ by_name (codes "c" ∷ [])
        ∷ by_url []
        ∷ [])
      []
    ≡ (codes "name", codes "a" ∷ codes "c" ∷ [])
      ∷ (codes "type", codes "b" ∷ [])
      ∷ (codes "url", [])
      ∷ []
unfolding merged
query = refl

search :
    search_actors_iri (λ i q. none) (λ i. i ++ codes "/actors") base_url []
    ≡ codes "https://x.org/actors"
unfolding search_actors_iri
search = refl

-- A key that cannot be drawn leaves everything as it is.
generator :
    key_generator crypto vocab vault key_type_ecdsa (person base_url) empty_vault
    ≡ (empty_vault, person base_url, some failed)
unfolding key_generator generate_key_pair
generator = refl

-- A service without an id is refused.
reset_error :
    (reset_cmd crypto vocab vault backing adding founding founders system with_url no_service
      empty_vault).2
    ≡ some (annotated not_found)
unfolding reset_cmd encode_key_pair
reset_error = refl

-- Nothing is read, and a type of keys that cannot be drawn is asked for: the command panics.
no_key :
    (bootstrap_cmd crypto vocab vault backing adding founding founders system [] key_type_ecdsa []
      with_url no_service
      (λ p. none)
      empty_vault).3
    ≡ exit_panic
unfolding bootstrap_cmd generate_key_pair encode_key_pair
no_key = refl

clients :
    ls_client (
      ok (
        record { id = codes "a"; redirect_uri = codes "u\nv" }
        ∷ record { id = codes "b"; redirect_uri = [] }
        ∷ []))
    ≡ ok (codes "0 a - u :: v\n1 b - \n")
unfolding ls_client
clients = refl

deleted :
    del_clients
      (λ i (n : ℕ). (n, if i == codes "bad" then some failed else none))
      (codes "a" ∷ [] ∷ codes "bad" ∷ codes "b" ∷ [])
      []
      0
    ≡ (0, codes "a" ∷ codes "b" ∷ [])
unfolding del_clients
deleted = refl

no_uris :
    add_client_cmd crypto vocab vault backing client_services adding base_url self []
      (codes "p")
      (codes "p")
      empty_vault
    ≡ (empty_vault, err failed)
unfolding add_client_cmd
no_uris = refl

token_without_actor :
    add_token crypto vocab vault backing client_services adding base_url [] [] empty_vault
    ≡ (empty_vault, no_token not_found)
unfolding add_token
token_without_actor = refl

listed_objects :
    list_cmd vocab store list_services base_url [] (codes "https://x.org/objects/1" ∷ []) poems
    ≡ ok (poem ∷ [])
unfolding list_cmd
listed_objects = refl

nothing_to_export : export_items vocab store list_services base_url [] ≡ err not_found
unfolding export_items
nothing_to_export = refl

info :
    info_cmd vocab store list_services
      (codes "https://x.org/objects/1" ∷ codes "https://x.org/no" ∷ [])
      poems
    ≡ ok (poem ∷ [])
unfolding info_cmd
info = refl

annas :
    (add_actor_cmd crypto vocab vault backing adding making base_url
      (codes "Person")
      self
      []
      []
      ((codes "anna", codes "p", codes "p", ok pair)
        ∷ (codes "bert", codes "p", codes "q", ok pair)
        ∷ [])
      empty_vault).0.passwords
    ≡ (codes "anna", codes "p") ∷ []
unfolding add_actor_cmd encode_key_pair
annas = refl

password_changed :
    (change_password crypto vocab vault account_services
      (codes "https://x.org/actors/1")
      (codes "p")
      (codes "p")
      empty_vault).1
    ≡ none
unfolding change_password
password_changed = refl

imported :
    (import_accounts crypto vocab vault account_services
      (ok (codes "x") ∷ err failed ∷ [])
      empty_vault)
    ≡ (empty_vault, none)
unfolding import_accounts
imported = refl

keys_made : (gen_keys crypto vocab vault account_services (λ n. ok pair) [] empty_vault).1 ≡ none
unfolding gen_keys encode_key_pair
keys_made = refl
