-- ===== src/Handlers/Item.antt =====
-- `HandleItem`
pub mod Laws
use fedbox.Prelude.{
  ℕ, Bool, true, false, not, Option, none, some, List, [], ◌∷◌, Text, codes, if◌then◌else◌,
}
use fedbox.Fault.{Fault, Result, ok, err, not_found, conflict, not_modified}
use fedbox.Vocab.{Vocab, Iri}
use fedbox.Http.{Request, req_url, cache_key}
use fedbox.Handlers.Services.{Services, Server, Reply, fail, actor_from_request}

module _ (V : Vocab) (S : Services V) where
  -- The only member of a loaded list of items; any other item is itself.
  abbrev one_of : Result (List V.Item) → Result V.Item
  one_of (err e) = err e
  one_of (ok []) = err not_found
  one_of (ok (it ∷ [])) = ok it
  one_of (ok (it ∷ other ∷ its)) = err conflict

  single : V.Item → Result V.Item
  single it = if V.is_item_collection it then one_of (V.members it) else ok it

  serve_item : Iri → Server V S → Bool → V.Item → Server V S × Reply V S
  unfolding single
  serve_item key fb from_cache it = elim (single it) [
    | err e ↦ (fb, fail V S e)
    | ok it' ↦
        if from_cache
        then (fb, record { item = some (V.clean_recipients it'); error = some not_modified })
        else (
          record fb { cache = S.store fb.cache key it' },
          record { item = some (V.clean_recipients it'); error = none },
        )
  ]

  unfoldable pub handle_item : Request → Server V S → Server V S × Reply V S
  unfolding serve_item actor_from_request cache_key
  handle_item r fb =
      let iri = req_url r fb.secure in
      let authorized = actor_from_request V S fb.storage r iri in
      let (key, r') = cache_key V fb.secure (V.link authorized) r in
      let it = S.cached fb.cache key in
      if V.is_nil it
      then elim (S.load fb.storage iri (S.authorized (V.link authorized) ∷ [])) [
        | err e ↦ (fb, fail V S not_found)
        | ok it' ↦ serve_item key fb false it'
      ]
      else serve_item key fb true it
