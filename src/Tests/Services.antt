-- ===== src/Tests/Services.antt =====
-- The theorems on clients, tokens, the service and listing, at a small storage.
use fedbox.Prelude.{
  ◌≡◌, refl, true, none, some, List, [], ◌∷◌, Text, codes, ◌++◌, ◌==◌, text_eq, if◌then◌else◌, ◌≢◌,
  ◌↔◌, map, arith,
}
use fedbox.Go.FilePath.{join_path}
use fedbox.Fault.{ok}
use fedbox.Vocab.{Iri}
use fedbox.Config.Pid.{Files}
use fedbox.Keys.{encode_key_pair}
use fedbox.Control.Clients.{token, add_client, gen_auth_token}
use fedbox.Control.Clients.Laws.{normalised, AddedClient, add_client-AddedClient}
use fedbox.Control.Clients.Tokens.{Issued, gen_auth_token-Issued}
use fedbox.Control.Service.{Base, create_service}
use fedbox.Control.Service.Laws.{Created, create_service-Created}
use fedbox.Control.Bootstrap.{bootstrap}
use fedbox.Control.Bootstrap.Laws.{Settled, bootstrap-Settled}
use fedbox.Control.Credentials.{get_pw_and_key}
use fedbox.Control.Credentials.Laws.{Credentials, get_pw_and_key-Credentials}
use fedbox.Command.Add.{add_cmd}
use fedbox.Command.Add.Laws.{add_cmd_same}
use fedbox.Search.{iri_with_filters}
use fedbox.Command.Listing.{list_items}
use fedbox.Command.Listing.Laws.{Listed, filter_types, list_items-Listed}
use fedbox.Tests.World.{
  vault_opens, base_url, self, client_services, founding, founders, making, list_services, pair,
  no_service, with_url, poem, poems, vocab, crypto, vault, Vault, empty_vault, backing, adding,
  options, system, store,
}

abbrev uris : List Text
uris = codes "/a/../b" ∷ codes "/c" ∷ []

abbrev app : Iri
app = codes "https://x.org/actors/app"

abbrev with_client : Vault
with_client =
    (add_client crypto vocab vault backing client_services adding base_url self (some (codes "pw"))
      uris none empty_vault).0

client_added :
    add_client crypto vocab vault backing client_services adding base_url self
      (some (codes "pw"))
      uris
      none
      empty_vault
    ≡ (with_client, app, none)
unfolding add_client encode_key_pair
client_added = refl

add_client-AddedClient_example :
    AddedClient crypto vocab vault backing client_services adding
      (some (codes "pw"))
      (map (normalised crypto vocab vault backing client_services adding) uris)
      none
      (add_client crypto vocab vault backing client_services adding base_url self
        (some (codes "pw"))
        uris
        none
        empty_vault)
add_client-AddedClient_example =
    add_client-AddedClient crypto vocab vault backing client_services adding base_url self
      (some (codes "pw")) (codes "/a/../b") (codes "/c" ∷ []) none empty_vault

abbrev with_token : Vault
with_token =
    (gen_auth_token crypto vocab vault backing client_services adding app app with_client).0

token_issued :
    gen_auth_token crypto vocab vault backing client_services adding app app with_client
    ≡ (with_token, token (codes "access"))
unfolding gen_auth_token add_client encode_key_pair
token_issued = refl

gen_auth_token-Issued_example :
    Issued crypto vocab vault backing client_services adding app app
      (codes "access")
      with_client
      with_token
gen_auth_token-Issued_example =
    gen_auth_token-Issued crypto vocab vault backing client_services adding app app (codes "access")
      with_client with_token token_issued

abbrev the_service : Base crypto vocab vault backing adding founding
the_service = record { service = self; private_key = none; has_storage = true }

abbrev with_service : Vault
with_service =
    (create_service crypto vocab vault backing adding founding base_url no_service self (some pair)
      (some (codes "pw")) empty_vault).1

service_created :
    create_service crypto vocab vault backing adding founding base_url no_service self
      (some pair)
      (some (codes "pw"))
      empty_vault
    ≡ (the_service, with_service, none)
unfolding create_service encode_key_pair
service_created = refl

create_service-Created_example :
    Created crypto vocab vault backing adding founding base_url no_service self
      (some pair)
      (some (codes "pw"))
      empty_vault
      the_service
      with_service
create_service-Created_example =
    create_service-Created crypto vocab vault backing adding founding base_url no_service
      the_service self (some pair) (some (codes "pw")) empty_vault with_service service_created

bootstrap-Settled_example :
    Settled crypto vocab vault backing adding founding founders system vault_opens with_url
      (some pair)
      (bootstrap crypto vocab vault backing adding founding founders system with_url no_service
        (some pair)
        (some (codes "pw"))
        empty_vault)
bootstrap-Settled_example =
    bootstrap-Settled crypto vocab vault backing adding founding founders system vault_opens
      with_url no_service (some pair) (some (codes "pw")) empty_vault refl

abbrev key_path : Text
key_path = join_path options.storage_path (options.hostname ++ codes ".key")

abbrev pw_path : Text
pw_path = join_path options.storage_path (options.hostname ++ codes ".pw")

-- A file with a key, and one with a password
abbrev files : Files
files p =
    if p == key_path then some (codes "key") else if p == pw_path then some (codes "pw") else none

apart : key_path ≢ pw_path
unfolding join_path
apart h = ground arith

get_pw_and_key-Credentials_example :
    Credentials crypto vocab vault backing adding founding founders system key_path pw_path
      (codes "ED25519")
      files
      (codes "/etc/hosts")
      (get_pw_and_key crypto vocab vault backing adding founding founders system options
        (codes "ED25519")
        files).0
      (get_pw_and_key crypto vocab vault backing adding founding founders system options
        (codes "ED25519")
        files).1
      (get_pw_and_key crypto vocab vault backing adding founding founders system options
        (codes "ED25519")
        files).2
get_pw_and_key-Credentials_example =
    get_pw_and_key-Credentials crypto vocab vault backing adding founding founders system options
      (codes "ED25519") files (codes "/etc/hosts") apart

-- An article that is added is a note.
article_is_note :
    add_cmd crypto vocab vault backing adding making base_url
      (codes "Article")
      (codes "poem")
      []
      empty_vault
    ≡ add_cmd crypto vocab vault backing adding making base_url
        (codes "Note")
        (codes "poem")
        []
        empty_vault
article_is_note =
    add_cmd_same crypto vocab vault backing adding making base_url (codes "Article") (codes "Note")
      (codes "poem") [] empty_vault refl refl

list_items-Listed_example :
    (list_items vocab store list_services (codes "https://x.org/objects/1" ∷ []) [] poems
      ≡ ok (poem ∷ []))
    ↔ Listed vocab store list_services
        (filter_types vocab store list_services [])
        poems
        (codes "https://x.org/objects/1" ∷ [])
        (poem ∷ [])
list_items-Listed_example =
    list_items-Listed vocab store list_services (codes "https://x.org/objects/1" ∷ []) [] poems
      (poem ∷ [])

-- It is listed.
listed :
    list_items vocab store list_services (codes "https://x.org/objects/1" ∷ []) [] poems
    ≡ ok (poem ∷ [])
unfolding list_items iri_with_filters
listed = refl
