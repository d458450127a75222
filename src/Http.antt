-- ===== src/Http.antt =====
-- Requests: `pathTyper.Type`, `reqURL`, `CacheKey` and `ValidateActivityRequest` of handlers.go and
-- `IsProxyURL` of app.go.
pub mod Typer
pub mod Laws
pub mod Favicon
use fedbox.Prelude.{
  ℕ, Bool, true, false, not, ◌||◌, Option, none, some, [], ◌∷◌, ◌++◌, Text, codes, ◌==◌, text_eq,
  contains, if◌then◌else◌,
}
use fedbox.Go.Strings.{to_lower}
use fedbox.Go.FilePath.{base}
use fedbox.Go.Url.{to_string}
use fedbox.Fault.{Result, ok, err, method_not_allowed, bad_request, not_found}
use fedbox.Vocab.{Vocab, Iri}
use fedbox.Http.Typer.{path_type}

-- The parts of `http.Request` that the program reads. A header that is not set is the empty text;
-- `body` is what reading the body gives, `form_id` is the form's value "id".
pub record Request : Type 0 where
  pub method : Text
  pub host : Text
  pub tls : Bool
  pub forwarded_host : Text
  pub content_type : Text
  pub path : Text
  pub raw_path : Text
  pub raw_query : Text
  -- the URL's user
  pub user : Option Text
  pub body : Result Text
  pub form_id : Text

-- `reqURL`
unfoldable pub req_url : Request → Bool → Text
req_url r secure = to_string (record {
  scheme = if secure || r.tls then codes "https" else codes "http";
  host = if r.forwarded_host == [] then r.host else r.forwarded_host;
  path = if r.path == codes "/" then [] else r.path;
  raw_path = r.raw_path;
  raw_query = r.raw_query;
})

-- `IsProxyURL`
unfoldable pub is_proxy_url : Iri → Bool
unfolding to_lower base
is_proxy_url i = to_lower (base i) == to_lower (codes "proxyUrl")

module _ (V : Vocab) where
  -- `CacheKey`. The user is set on the URL that the caller's request points to, so the changed
  -- request is returned with the key.
  unfoldable pub cache_key : Bool → Iri → Request → Iri × Request
  cache_key secure auth r =
      let r' = if V.iri_equal auth V.public_ns then r else record r { user = some (base auth) } in
      (req_url r' secure, r')

  -- `validContentType`
  unfoldable valid_content_type : Text → Bool
  valid_content_type c = c == V.content_type_json_activity || c == V.content_type_json_ld

  -- `validActivityCollection`
  unfoldable valid_activity_collection : Request → Bool
  valid_activity_collection r = contains (V.outbox ∷ V.inbox ∷ []) (path_type V r.path)

  -- `ValidateActivityRequest`
  unfoldable pub validate_activity_request : Request → Result (Unit {0})
  unfolding valid_content_type valid_activity_collection
  validate_activity_request r =
      if not (r.method == codes "POST")
      then err method_not_allowed
      else if not (valid_content_type r.content_type)
      then err bad_request
      else if not (valid_activity_collection r)
      then err not_found
      else ok tt
