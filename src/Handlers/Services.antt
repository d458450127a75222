-- ===== src/Handlers/Services.antt =====
-- What the handlers share: the state of the server, the services of other packages that they call,
-- and `actorFromRequestWithClient`.
use fedbox.Prelude.{
  ℕ, Bool, ◌&&◌, Option, none, some, List, Text, codes, ◌==◌, text_eq, if◌then◌else◌,
}
use fedbox.Fault.{Fault, Result}
use fedbox.Vocab.{Vocab, Iri}
use fedbox.Http.{Request, req_url, cache_key, is_proxy_url}

-- The verifiers of go-ap/auth
pub data Verifier : Type 0 where
  http_signature oauth2 any_verifier : Verifier

-- The packages around the handlers. Loading, also from the cache, changes no state that the
-- handlers see.
pub record Services (V : Vocab) : Type 1 where
  pub Storage : Type 0
  pub Cache : Type 0
  pub Check : Type 0
  -- `filters.Authorized` and `filters.FromValues` of a query
  pub authorized : Iri → Check
  pub from_values : Text → List Check
  -- whether `PaginatorValues` of a query has a negative count, and the query with `FirstPage`
  pub is_unpaged : Text → Bool
  pub first_page : Text → Text
  pub load : Storage → Iri → List Check → Result V.Item
  -- `nil` for a key that is not there
  pub cached : Cache → Iri → V.Item
  pub store : Cache → Iri → V.Item → Cache
  pub delete_all : Cache → Cache
  -- `cache.ActivityPurge`
  pub purge : Cache → V.Item → Iri → Cache
  -- `Verify`, whose actor is used also beside an error
  pub verify : Storage → Verifier → Request → V.Item × Option Fault
  -- `ProcessActivity` of a processor, which works in the background if the flag is set
  pub process : Bool → Storage → V.Item → V.Item → Iri → Storage × V.Item × Option Fault
  pub is_inbox : Iri → Bool
  pub is_outbox : Iri → Bool
  -- `errors.HttpStatus`
  pub http_status : Fault → ℕ

module _ (V : Vocab) (S : Services V) where
  pub record Server : Type 0 where
    pub storage : S.Storage
    pub cache : S.Cache
    -- `Conf.Secure`, and whether `Conf.Env` is a test environment
    pub secure : Bool
    pub in_test : Bool

  -- What a handler returns: an item beside an error, where the code has both.
  pub record Reply : Type 0 where
    pub item : Option V.Item
    pub error : Option Fault

  abbrev pub fail : Fault → Reply
  fail e = record { item = none; error = some e }

  unfoldable pub verifier_for : Text → Iri → Verifier
  unfolding is_proxy_url
  verifier_for method received_in =
      if method == codes "POST" && S.is_inbox received_in
      then http_signature
      else if method == codes "POST" && S.is_outbox received_in
      then oauth2
      else if is_proxy_url received_in
      then oauth2
      else any_verifier

  unfoldable pub actor_from_request : S.Storage → Request → Iri → V.Item
  actor_from_request storage r received_in =
      (S.verify storage (verifier_for r.method received_in) r).0

  -- The URL of a request, its actor, and the key under which its answer is cached
  abbrev pub requested : Server → Request → Iri
  requested fb r = req_url r fb.secure

  abbrev pub requester : Server → Request → V.Item
  requester fb r = actor_from_request fb.storage r (requested fb r)

  abbrev pub key_of : Server → Request → Iri
  key_of fb r = (cache_key V fb.secure (V.link (requester fb r)) r).0
