-- ===== src/Handlers/Activity.antt =====
-- `HandleActivity`
pub mod Laws
use fedbox.Prelude.{
  ℕ, Bool, true, false, not, Option, none, some, Text, codes, [], ◌∷◌, if◌then◌else◌,
}
use fedbox.Fault.{Fault, Result, ok, err, bad_request, unauthorized, annotated}
use fedbox.Vocab.{Vocab, Iri}
use fedbox.Http.{Request, validate_activity_request}
use fedbox.Handlers.Services.{Services, Server, actor_from_request}

module _ (V : Vocab) (S : Services V) where
  pub record ActivityReply : Type 0 where
    pub item : V.Item
    pub status : ℕ
    pub error : Option Fault

  refuse : V.Item → ℕ → Fault → ActivityReply
  refuse it status e = record { item = it; status = status; error = some e }

  -- Created, or gone after a deletion
  abbrev pub status_after : V.Item → ℕ
  status_after it = if V.matches (V.delete_type ∷ []) (V.types it) then 410 else 201

  -- What follows `ProcessActivity`: the cache is purged if the result is an activity.
  after_processing :
      Iri → Server V S → S.Storage × V.Item × Option Fault → Server V S × ActivityReply
  unfolding refuse
  after_processing received_in fb (storage, it, some e) =
      (record fb { storage = storage }, refuse it (S.http_status e) (annotated e))
  after_processing received_in fb (storage, it, none) =
      let cache = if V.is_activity it then S.purge fb.cache it received_in else fb.cache in
      (
        record fb { storage = storage; cache = cache },
        record { item = it; status = status_after it; error = none },
      )

  process_item : Iri → Request → Server V S → V.Item → Server V S × ActivityReply
  unfolding after_processing actor_from_request
  process_item received_in r fb it =
      let authorized = actor_from_request V S fb.storage r received_in in
      if V.is_nil it
      then (fb, refuse it 500 bad_request)
      else if V.iri_equal (V.link authorized) V.public_ns
      then (fb, refuse it 401 unauthorized)
      else after_processing received_in fb
          (S.process (not fb.in_test) fb.storage it authorized received_in)

  read_item : Iri → Request → Server V S → Server V S × ActivityReply
  unfolding process_item
  read_item received_in r fb = elim r.body [
    | err e ↦ (fb, refuse V.nil 400 bad_request)
    | ok body ↦ elim (V.unmarshal body) [
      | err e ↦ (fb, refuse V.nil 500 bad_request)
      | ok it ↦ process_item received_in r fb it
    ]
  ]

  unfoldable pub handle_activity : Iri → Request → Server V S → Server V S × ActivityReply
  unfolding read_item validate_activity_request
  handle_activity received_in r fb = elim (validate_activity_request V r) [
    | err e ↦ (fb, refuse V.nil (S.http_status e) e)
    | ok _ ↦ read_item received_in r fb
  ]
