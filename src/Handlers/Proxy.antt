-- ===== src/Handlers/Proxy.antt =====
-- `ProxyURL`
use fedbox.Prelude.{ℕ, [], Text, codes, not, ◌==◌, text_eq, if◌then◌else◌}
use fedbox.Fault.{Fault, Result, ok, err, unsupported_media_type, not_found}
use fedbox.Vocab.{Vocab, Iri}
use fedbox.Http.{Request}
use fedbox.Handlers.Services.{Services, Server, verifier_for, actor_from_request}

-- A response of a remote server: its status and its body
record Remote : Type 0 where
  pub status : ℕ
  pub body : Text

data ProxyReply : Type 0 where
  refused : Fault → ProxyReply
  passed : Remote → ProxyReply

module _ (V : Vocab) (S : Services V) where
  -- `fetch` gets an IRI with the signature of an actor.
  unfoldable proxy_url : (V.Item → Iri → Result Remote) → Request → Server V S → ProxyReply
  unfolding actor_from_request verifier_for
  proxy_url fetch r fb =
      if not (r.content_type == codes "application/x-www-form-urlencoded")
      then refused unsupported_media_type
      else if r.form_id == []
      then refused not_found
      else elim (fetch (actor_from_request V S fb.storage r r.form_id) r.form_id) [
        | err e ↦ refused not_found
        | ok res ↦ passed res
      ]
