-- ===== src/Http/Laws.antt =====
-- What the helpers of the handlers decide: the collection of a path, the accepted requests, and the
-- key of the cache.
use fedbox.Prelude.{◌≡◌, ◌↔◌, ◌⊎◌, Bool, codes, arith, text_eq, text_beq_iff}
use fedbox.Fault.{ok}
use fedbox.Vocab.{Vocab, Iri}
use fedbox.Http.{Request, req_url, cache_key, validate_activity_request}
use fedbox.Http.Typer.{path_type}

module _ (V : Vocab) where
  -- The key under which an answer is cached is the same for any two actors: it is the request's URL.
  pub cache_key-same :
      (secure : Bool) (a b : Iri) (r : Request)
      → ((cache_key V secure a r).0 ≡ (cache_key V secure b r).0)
        × ((cache_key V secure a r).0 ≡ req_url r secure)
  unfolding cache_key req_url
  cache_key-same secure a b r = ground arith

  -- A request is accepted exactly when it is a POST of one of the two content types to a path that
  -- names an outbox or an inbox.
  pub validate_activity_request_iff :
      (r : Request)
      → (validate_activity_request V r ≡ ok tt) ↔ (
          (r.method ≡ codes "POST")
          × ((r.content_type ≡ V.content_type_json_activity)
              ⊎ (r.content_type ≡ V.content_type_json_ld))
          × ((path_type V r.path ≡ V.outbox) ⊎ (path_type V r.path ≡ V.inbox)))
  unfolding validate_activity_request
  validate_activity_request_iff r = ground (
    arith,
    text_beq_iff r.method (codes "POST"),
    text_beq_iff r.content_type V.content_type_json_activity,
    text_beq_iff r.content_type V.content_type_json_ld,
    text_beq_iff V.outbox (path_type V r.path),
    text_beq_iff V.inbox (path_type V r.path),
  )
