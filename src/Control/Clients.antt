-- ===== src/Control/Clients.antt =====
-- `AddClient` and `GenAuthToken` of base.go.
pub mod Laws
pub mod Tokens
use fedbox.Prelude.{
  ℕ, Bool, true, false, Option, none, some, List, [], ◌∷◌, ◌++◌, Text, codes, ◌==◌, text_eq,
  if◌then◌else◌,
}
use fedbox.Go.Strings.{join}
use fedbox.Go.FilePath.{clean, base}
use fedbox.Fault.{Fault, Result, ok, err, failed, not_found}
use fedbox.Vocab.{Vocab, Iri}
use fedbox.Keys.{Crypto, MetadataStore, KeyPair, key_type_rsa, generate_key_pair, add_key_to_item}
use fedbox.Control.Backing.{OAuthClient, Authorization, Access, Backing, store_of}
use fedbox.Control.Addition.{Adding, Added, added, refused, panicked, add_actor}

-- The package net/url, and what the two functions build of other packages
pub record ClientServices (V : Vocab) : Type 1 where
  pub Url : Type 0
  pub parse_request_uri : Text → Option Url
  pub host : Url → Text
  pub path : Url → Text
  pub with_path : Url → Text → Url
  pub to_text : Url → Text
  -- the URL of an `IRI.URL`, and `url.Parse` followed by `String`
  pub iri_url : Text → Option Url
  pub parsed : Text → Option Iri
  -- `SearchActorsIRI` by the name of an actor
  pub search_by_name : Text → Iri
  -- `Append` of IRIs to an `ItemCollection`
  pub append : List Iri → List Iri → List Iri
  -- the application with a name and URLs that the service makes
  pub application : Text → List Iri → V.Item
  -- `json.Marshal`, empty where it fails
  pub marshal : Option Text → Text
  -- the tokens that osin generates, for a client
  pub authorize_token : Result Text
  pub access_tokens : Result (Text × Text)
  -- `OnActor` on what is loaded: the actor its function was called with last, if it was called
  pub last_actor : V.Item → Result (Option V.Item)

-- The state of the loop over the redirect URIs
pub record Redirects : Type 0 where
  pub name : Text
  pub urls : List Iri
  pub uris : List Text

abbrev uri_separator : Text
uri_separator = codes "\n"

-- The token, an error, or a panic on a missing actor
pub data Token : Type 0 where
  token : Text → Token
  no_token : Fault → Token
  token_panic : Token

module _ (C : Crypto) (V : Vocab) (M : MetadataStore V) (B : Backing V M) (W : ClientServices V)
    (A : Adding V (store_of V M B)) where
  abbrev pub cleaned : W.Url → W.Url
  cleaned u = W.with_path u (clean (W.path u))

  -- A round of the loop: what is no URI stays as it is.
  redirect_round : Redirects → Text → Redirects
  unfolding clean
  redirect_round r uri = elim (W.parse_request_uri uri) [
    | none ↦ record r { uris = r.uris ++ (uri ∷ []) }
    | some u ↦ record {
      name = W.host u;
      urls = W.append r.urls (W.to_text (W.with_path (cleaned u) []) ∷ W.to_text (cleaned u) ∷ []);
      uris = r.uris ++ (W.to_text (cleaned u) ∷ []);
    }
  ]

  redirects_from : Redirects → List Text → Redirects
  unfolding redirect_round
  redirects_from r [] = r
  redirects_from r (uri ∷ uris) = redirects_from (redirect_round r uri) uris

  unfoldable pub redirects : List Text → Redirects
  unfolding redirects_from
  redirects uris =
      redirects_from (record { name = codes "oauth-client-app"; urls = []; uris = [] }) uris

  -- The key of the application; errors are only logged.
  with_rsa_key : V.Item → M.State → M.State × V.Item
  unfolding generate_key_pair add_key_to_item
  with_rsa_key app s = elim (generate_key_pair C key_type_rsa) [
    | err e ↦ (s, app)
    | ok pair ↦ let left = add_key_to_item C V M pair app s in (left.0, left.1)
  ]

  -- An error of the password is overwritten before it is read.
  with_password : Option Text → M.State × V.Item → M.State × V.Item
  with_password none (s, app) = (s, app)
  with_password (some pw) (s, app) = ((B.password_set s (M.actor_id app) pw).0, app)

  abbrev pub secret_of : Option Text → Text
  secret_of none = []
  secret_of (some pw) = pw

  -- The id is returned beside the error of saving the client.
  id_result : Iri → M.State × Option Fault → M.State × Iri × Option Fault
  id_result id (s, e) = (s, id, e)

  save_new_client :
      Option Text → List Text → Option Text → M.State × V.Item → M.State × Iri × Option Fault
  unfolding join id_result
  save_new_client pw uris user (s, app) =
      if M.actor_id app == []
      then (s, [], some failed)
      else id_result (M.actor_id app) (
          B.save_client s (record {
            id = M.actor_id app;
            secret = secret_of pw;
            redirect_uri = join uris uri_separator;
            user_data = W.marshal user;
          }))

  after_actor :
      Option Text → List Text → Option Text → M.State × Added V → M.State × Iri × Option Fault
  unfolding with_rsa_key with_password save_new_client
  after_actor pw uris user (s, refused e) = (s, [], some e)
  after_actor pw uris user (s, panicked) = (s, [], some failed)
  after_actor pw uris user (s, added app) =
      save_new_client pw uris user (with_password pw (with_rsa_key app s))

  -- `AddClient`, for the service's base URL and actor, with the id and the error it returns
  unfoldable pub add_client :
      Text → V.Item → Option Text → List Text → Option Text → M.State → M.State × Iri × Option Fault
  unfolding redirects add_actor after_actor
  add_client base_url self pw uris user s =
      let r = redirects uris in
      after_actor pw r.uris user
        (add_actor V (store_of V M B) A base_url (W.application r.name r.urls) self s)

  -- The name under which a client is looked up
  unfoldable pub client_name : Text → Text
  unfolding base
  client_name id = elim (W.iri_url id) [
    | none ↦ id
    | some u ↦ if base (W.path u) == codes "." then id else base (W.path u)
  ]

  unfoldable pub actor_iri : Text → Iri
  actor_iri identifier = elim (W.parsed identifier) [
    | some i ↦ i
    | none ↦ W.search_by_name identifier
  ]

  found_actor : Result V.Item → Result (Option V.Item)
  found_actor (err e) = err e
  found_actor (ok it) = if V.is_nil it then err not_found else W.last_actor it

  unfoldable pub authorization : B.Client → Text → Authorization B.Client
  authorization cl code = record {
    client = cl;
    code = code;
    expires_in = 86400;
    redirect_uri = B.redirect_of cl;
    state = codes "state";
  }

  unfoldable pub access : B.Client → Text → Text → Text → Iri → Access B.Client
  unfolding authorization
  access cl code tok refresh user = record {
    client = cl;
    authorization = authorization cl code;
    access_token = tok;
    refresh_token = refresh;
    expires_in = 86400;
    scope = codes "scope";
    redirect_uri = B.redirect_of cl;
    user_data = user;
  }

  token_result : Text → M.State × Option Fault → M.State × Token
  token_result tok (s, none) = (s, token tok)
  token_result tok (s, some e) = (s, no_token e)

  then_save_access : Access B.Client → M.State × Option Fault → M.State × Token
  unfolding token_result
  then_save_access ad (s, some e) = (s, no_token e)
  then_save_access ad (s, none) = token_result ad.access_token (B.save_access s ad)

  -- The authorization code is generated before the actor's link is read.
  issue : B.Client → Option V.Item → M.State → M.State × Token
  unfolding authorization access then_save_access
  issue cl actor s = elim W.authorize_token [
    | err e ↦ (s, no_token e)
    | ok code ↦ elim actor [
      | none ↦ (s, token_panic)
      | some act ↦ elim W.access_tokens [
        | err e ↦ (s, no_token e)
        | ok (tok, refresh) ↦
            then_save_access (access cl code tok refresh (V.link act))
              (B.save_authorize s (authorization cl code))
      ]
    ]
  ]

  unfoldable pub gen_auth_token : Text → Text → M.State → M.State × Token
  unfolding client_name actor_iri found_actor issue
  gen_auth_token id identifier s = elim (B.get_client s (client_name id)) [
    | err e ↦ (s, no_token e)
    | ok cl ↦ elim (found_actor (B.load s (actor_iri identifier) [])) [
      | err e ↦ (s, no_token e)
      | ok actor ↦ issue cl actor s
    ]
  ]
