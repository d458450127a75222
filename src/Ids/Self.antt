-- ===== src/Ids/Self.antt =====
-- activitypub/activitypub.go: the service that is made for a base URL, and its IRI.
pub mod Laws
use fedbox.Prelude.{Bool, List, [], ◌∷◌, Text, codes, ◌==◌, text_eq, if◌then◌else◌}
use fedbox.Vocab.{Iri}

-- What is called of the package net/url and of IRIs; a URL that cannot be parsed is the empty one.
pub record Urls : Type 1 where
  pub Url : Type 0
  pub parse : Text → Url
  -- `URL` of an IRI
  pub iri_url : Iri → Url
  pub path : Url → Text
  pub with_path : Url → Text → Url
  pub to_text : Url → Text
  pub add_path : Iri → Text → Iri
  -- the collection of a name at an IRI
  pub collection_iri : Text → Iri → Iri
  pub public_ns : Iri

-- `vocab.Service`, as it is filled
pub record Service : Type 0 where
  pub id : Iri
  pub type_name : Text
  pub preferred_username : Text
  pub context : Iri
  pub attributed_to : Iri
  pub audience : List Iri
  pub summary : Text
  pub url : Iri
  pub oauth_authorization_endpoint : Iri
  pub oauth_token_endpoint : Iri
  pub proxy_url_endpoint : Iri
  pub inbox : Iri
  pub outbox : Iri
  pub streams : List Iri

abbrev developer_url : Iri
developer_url = codes "https://github.com/mariusor"

abbrev project_iri : Iri
project_iri = codes "https://github.com/go-ap/fedbox"

module _ (U : Urls) where
  -- The base URL, without a path that is a slash
  self_iri : Iri → Iri
  self_iri base =
      if U.path (U.iri_url base) == codes "/"
      then U.to_text (U.with_path (U.iri_url base) [])
      else base

  service_at : Iri → Text → Service
  service_at base name = record {
    id = base;
    type_name = codes "Service";
    preferred_username = name;
    context = project_iri;
    attributed_to = developer_url;
    audience = U.public_ns ∷ [];
    summary = codes "Generic ActivityPub service";
    url = base;
    oauth_authorization_endpoint = U.add_path (U.add_path base (codes "oauth")) (codes "authorize");
    oauth_token_endpoint = U.add_path (U.add_path base (codes "oauth")) (codes "token");
    proxy_url_endpoint = U.add_path base (codes "proxyUrl");
    inbox = U.collection_iri (codes "inbox") base;
    outbox = U.collection_iri (codes "outbox") base;
    streams =
        U.collection_iri (codes "actors") base
        ∷ U.collection_iri (codes "activities") base
        ∷ U.collection_iri (codes "objects") base
        ∷ [];
  }

  -- `Self`
  unfoldable pub self : Iri → Text → Service
  unfolding self_iri service_at
  self base name = service_at (self_iri base) name

  -- `DefaultServiceIRI`
  unfoldable default_service_iri : Text → Iri
  default_service_iri base = U.to_text (U.parse base)
