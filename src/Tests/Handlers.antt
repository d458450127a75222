-- ===== src/Tests/Handlers.antt =====
-- The theorems on requests and handlers, at a small storage.
use fedbox.Prelude.{◌≡◌, refl, ◌≢◌, ◌↔◌, ◌⊎◌, true, some, none, [], ◌∷◌, codes, contains, text_eq}
use fedbox.Go.Strings.{split, trim_left}
use fedbox.Go.FilePath.{clean}
use fedbox.Go.Url.{to_string}
use fedbox.Fault.{ok, not_modified}
use fedbox.Http.{Request, req_url, cache_key, validate_activity_request}
use fedbox.Http.Laws.{validate_activity_request_iff}
use fedbox.Http.Typer.{path_type}
use fedbox.Http.Typer.Laws.{Names, path_type_sound}
use fedbox.Handlers.Services.{Server, actor_from_request, verifier_for}
use fedbox.Handlers.Collection.{handle_collection, collection_checks}
use fedbox.Handlers.Collection.Laws.{IsClean, handle_collection-IsClean}
use fedbox.Handlers.Item.{handle_item}
use fedbox.Handlers.Item.Laws.{handle_item-hidden, handle_item_shared}
use fedbox.Handlers.Activity.{handle_activity}
use fedbox.Handlers.Activity.Laws.{handle_activity_anonymous, Accepted, handle_activity-Accepted}
use fedbox.Tests.World.{
  Doc, note, coll, no_docs, more, vocab, vocab_cleans, services, services_keeps, get,
}

abbrev secret : Doc
secret =
    note (codes "https://x.org/objects/1") (codes "Note" ∷ []) (codes "https://x.org/actors/2" ∷ [])
      []

abbrev letters : Doc
letters =
    coll (codes "https://x.org/actors/1/inbox") (codes "https://x.org/actors/3" ∷ [])
      (more secret no_docs)

abbrev server : Server vocab services
server = record {
  storage =
      record {
        at = codes "https://x.org/objects/1";
        owner = codes "https://x.org/actors/1";
        doc = secret;
      }
      ∷ record {
        at = codes "https://x.org/actors/1/inbox?maxItems=1";
        owner = codes "https://x.org/actors/1";
        doc = letters;
      }
      ∷ [];
  cache = [];
  secure = true;
  in_test = true;
}

abbrev alice : Request
alice = get (codes "https://x.org/actors/1") (codes "/objects/1") []

abbrev mallory : Request
mallory = get (codes "as:Public") (codes "/objects/1") []

abbrev snooping : Request
snooping = get (codes "https://x.org/actors/9") (codes "/actors/1/inbox") (codes "maxItems=1")

abbrev posting : Request
posting = record (get (codes "https://x.org/actors/1") (codes "/actors/1/outbox") []) {
  method = codes "POST";
  content_type = codes "application/activity+json";
  body = ok (codes "hello");
}

validate_activity_request_iff_example : (validate_activity_request vocab posting ≡ ok tt) ↔ (
    (posting.method ≡ codes "POST")
    × ((posting.content_type ≡ codes "application/activity+json")
        ⊎ (posting.content_type ≡ codes "application/ld+json"))
    × ((path_type vocab posting.path ≡ codes "outbox")
        ⊎ (path_type vocab posting.path ≡ codes "inbox")))
validate_activity_request_iff_example = validate_activity_request_iff vocab posting

path_type_sound_example :
    (path_type vocab (codes "/actors/1/INBOX") ≡ [])
    ⊎ ((contains vocab.valid_collections (path_type vocab (codes "/actors/1/INBOX")) ≡ true)
        × (clean (codes "/actors/1/INBOX") ≡ codes "/actors/1/INBOX")
        × Names vocab
            (path_type vocab (codes "/actors/1/INBOX"))
            (split (trim_left (codes "/actors/1/INBOX") b'/') b'/'))
path_type_sound_example = path_type_sound vocab (codes "/actors/1/INBOX")

snooped : Doc
snooped =
    coll (codes "https://x.org/actors/1/inbox") []
      (more (note (codes "https://x.org/objects/1") (codes "Note" ∷ []) [] []) no_docs)

handle_collection-IsClean_example : IsClean vocab services snooped
unfolding handle_collection actor_from_request cache_key collection_checks req_url to_string snooped
handle_collection-IsClean_example =
    handle_collection-IsClean vocab services vocab_cleans (codes "inbox") snooping server snooped
      refl

handle_item-hidden_example : vocab.hidden (vocab.clean_recipients secret) ≡ []
unfolding handle_item actor_from_request cache_key req_url to_string
handle_item-hidden_example =
    handle_item-hidden vocab services vocab_cleans alice server (vocab.clean_recipients secret) refl

handle_item_shared_example :
    (handle_item vocab services mallory (handle_item vocab services alice server).0).1
    ≡ record { item = some (vocab.clean_recipients secret); error = some not_modified }
unfolding actor_from_request cache_key req_url to_string
handle_item_shared_example =
    handle_item_shared vocab services services_keeps alice mallory server secret refl refl refl refl
      refl

handle_activity_anonymous_example :
    ((handle_activity vocab services
        (codes "https://x.org/actors/1/outbox")
        (record posting { form_id = codes "as:Public" })
        server).0
      ≡ server)
    × ((handle_activity vocab services
          (codes "https://x.org/actors/1/outbox")
          (record posting { form_id = codes "as:Public" })
          server).1.error
        ≢ none)
unfolding actor_from_request
handle_activity_anonymous_example =
    handle_activity_anonymous vocab services (codes "https://x.org/actors/1/outbox")
      (record posting { form_id = codes "as:Public" }) server refl

handle_activity-Accepted_example :
    Accepted vocab services
      (codes "https://x.org/actors/1/outbox")
      posting
      server
      (handle_activity vocab services (codes "https://x.org/actors/1/outbox") posting server).1
unfolding handle_activity actor_from_request path_type verifier_for
handle_activity-Accepted_example =
    handle_activity-Accepted vocab services (codes "https://x.org/actors/1/outbox") posting server
      refl
