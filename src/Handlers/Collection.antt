-- ===== src/Handlers/Collection.antt =====
-- `HandleCollection`
pub mod Laws
use fedbox.Prelude.{
  ℕ, Bool, true, false, not, ◌&&◌, ◌||◌, Option, none, some, List, [], ◌∷◌, ◌++◌, Text, codes, ◌==◌,
  text_eq, if◌then◌else◌,
}
use fedbox.Go.Url.{request_uri}
use fedbox.Fault.{Fault, Result, ok, err, not_found, not_modified, see_other}
use fedbox.Vocab.{Vocab, Iri, CollectionPath}
use fedbox.Http.{Request, req_url, cache_key}
use fedbox.Handlers.Services.{Services, Server, Reply, fail, actor_from_request}

module _ (V : Vocab) (S : Services V) where
  -- The checks of the load: whether the authorization check is among them depends on the actor's
  -- own collection of the kind that the IRI names.
  unfoldable pub collection_checks : Iri → V.Item → Text → List S.Check
  collection_checks iri authorized query =
      let col = V.of (V.last_collection iri) authorized in
      (if V.is_nil col || V.iri_equal (V.link col) iri
        then S.authorized (V.link authorized) ∷ []
        else [])
      ++ S.from_values query

  -- The recipients of a loaded collection and of its members are cleaned, and it is cached.
  serve_collection : Iri → Server V S → Bool → V.Item → Server V S × Reply V S
  serve_collection key fb from_cache it =
      if V.is_nil it || not (V.is_collection it)
      then (fb, fail V S not_found)
      else elim (V.members it) [
        | err e ↦ (fb, fail V S e)
        | ok _ ↦
            let col = V.map_members V.clean_recipients (V.clean_recipients it) in
            if from_cache then (fb, record { item = some col; error = some not_modified }) else (
              record fb { cache = S.store fb.cache key col },
              record { item = some col; error = none },
            )
      ]

  load_collection : Iri → Iri → V.Item → Request → Server V S → Server V S × Reply V S
  unfolding serve_collection collection_checks
  load_collection iri key authorized r fb =
      let it = S.cached fb.cache key in
      if V.is_nil it
      then elim (S.load fb.storage iri (collection_checks iri authorized r.raw_query)) [
        | err e ↦ (fb, fail V S e)
        | ok it' ↦ serve_collection key fb false it'
      ]
      else serve_collection key fb true it

  page_of_collection : Request → Server V S → Server V S × Reply V S
  unfolding load_collection actor_from_request cache_key
  page_of_collection r fb =
      let iri = req_url r fb.secure in
      let authorized = actor_from_request V S fb.storage r iri in
      let (key, r') = cache_key V fb.secure (V.link authorized) r in
      load_collection iri key authorized r' fb

  unfoldable pub handle_collection : CollectionPath → Request → Server V S → Server V S × Reply V S
  unfolding page_of_collection
  handle_collection typ r fb =
      if typ == V.unknown
      then (fb, fail V S not_found)
      else if not (V.valid_collection typ)
      then (fb, fail V S not_found)
      else if S.is_unpaged r.raw_query
      then (fb, fail V S (see_other (request_uri r.path r.raw_path (S.first_page r.raw_query))))
      else page_of_collection r fb
