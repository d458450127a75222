-- ===== src/Handlers/Activity/Laws.antt =====
-- When `HandleActivity` changes the server, and what its replies say.
use fedbox.Prelude.{◌≡◌, ◌≢◌, inl, inr, true, false, not, none, Text, arith, text_eq}
use fedbox.Fault.{ok, Result-cases}
use fedbox.Vocab.{Vocab, Iri}
use fedbox.Http.{Request, validate_activity_request}
use fedbox.Handlers.Services.{Services, Server, actor_from_request}
use fedbox.Handlers.Activity.{ActivityReply, status_after, process_item, read_item, handle_activity}

module _ (V : Vocab) (S : Services V) (received_in : Iri) where
  -- A reply with an error for a server that is as it was
  abbrev Refused : Server V S → Server V S × ActivityReply V S → Type 0
  Refused fb result = (result.0 ≡ fb) × (result.1.error ≢ none)

  read_item_anonymous :
      (r : Request) (fb : Server V S)
      → V.iri_equal (V.link (actor_from_request V S fb.storage r received_in)) V.public_ns ≡ true
      → Refused fb (read_item V S received_in r fb)
  unfolding read_item
  read_item_anonymous r fb anonymous = ground arith

  -- A request that no actor is authorized for is refused with an error, and changes neither the
  -- storage nor the cache, whatever its method, its path and its body.
  pub handle_activity_anonymous :
      (r : Request) (fb : Server V S)
      → V.iri_equal (V.link (actor_from_request V S fb.storage r received_in)) V.public_ns ≡ true
      → ((handle_activity V S received_in r fb).0 ≡ fb)
        × ((handle_activity V S received_in r fb).1.error ≢ none)
  unfolding handle_activity
  handle_activity_anonymous r fb anonymous = ground (arith, read_item_anonymous r fb anonymous)

  -- What a reply with no error rests on
  pub record Accepted (r : Request) (fb : Server V S) (reply : ActivityReply V S) : Type 0 where
    pub valid : validate_activity_request V r ≡ ok tt
    pub text : Text
    pub read : r.body ≡ ok text
    pub sent : V.Item
    pub parsed : V.unmarshal text ≡ ok sent
    pub present : V.is_nil sent ≡ false
    pub known :
        V.iri_equal (V.link (actor_from_request V S fb.storage r received_in)) V.public_ns ≡ false
    pub stored : S.Storage
    pub processed :
        S.process
          (not fb.in_test)
          fb.storage
          sent
          (actor_from_request V S fb.storage r received_in)
          received_in
        ≡ (stored, reply.item, none)
    pub status : reply.status ≡ status_after V S reply.item

  process_item-Accepted :
      (r : Request) (fb : Server V S) (text : Text) (it : V.Item)
      → validate_activity_request V r ≡ ok tt
      → r.body ≡ ok text
      → V.unmarshal text ≡ ok it
      → (process_item V S received_in r fb it).1.error ≡ none
      → Accepted r fb (process_item V S received_in r fb it).1
  unfolding process_item
  process_item-Accepted r fb text it valid read parsed e =
      let actor = actor_from_request V S fb.storage r received_in in
      let done = S.process (not fb.in_test) fb.storage it actor received_in in
      let present : V.is_nil it ≡ false = ground arith in
      let known : V.iri_equal (V.link actor) V.public_ns ≡ false = ground arith in
      let fine : done.2 ≡ none = ground arith in
      record {
        valid = valid;
        text = text;
        read = read;
        sent = it;
        parsed = parsed;
        present = present;
        known = known;
        stored = done.0;
        processed = ground arith;
        status = ground arith;
      }

  -- A reply has no error only if the request was valid, its body was an item that is not nil, an
  -- actor was authorized, and that item was processed for that actor without an error; then the
  -- reply has the processed item, and its status says whether that is a deletion.
  pub handle_activity-Accepted :
      (r : Request) (fb : Server V S)
      → (handle_activity V S received_in r fb).1.error ≡ none
      → Accepted r fb (handle_activity V S received_in r fb).1
  unfolding handle_activity read_item
  handle_activity-Accepted r fb e = elim (Result-cases (validate_activity_request V r)) [
    | inl (fault, bad) ↦ absurd (ground arith)
    | inr (u, valid) ↦ elim (Result-cases r.body) [
      | inl (fault, bad) ↦ absurd (ground arith)
      | inr (text, read) ↦ elim (Result-cases (V.unmarshal text)) [
        | inl (fault, bad) ↦ absurd (ground arith)
        | inr (it, parsed) ↦
            let same : handle_activity V S received_in r fb ≡ process_item V S received_in r fb it =
              ground arith in
            rw same (process_item-Accepted r fb text it valid read parsed (rw same at e))
      ]
    ]
  ]
