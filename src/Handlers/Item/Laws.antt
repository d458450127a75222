-- ===== src/Handlers/Item/Laws.antt =====
-- What `HandleItem` returns, and what the shared key of the cache lets later requests see.
use fedbox.Prelude.{
  ◌≡◌, sym, ap, ◌∙◌, inl, inr, Bool, true, false, some, [], ◌∷◌, arith, Bool-cases,
}
use fedbox.Fault.{ok, not_modified, Result-cases}
use fedbox.Vocab.{Vocab, Iri, CleansRecipients}
use fedbox.Http.{Request, req_url}
use fedbox.Http.Laws.{cache_key-same}
use fedbox.Handlers.Services.{Services, Server, requested, requester, key_of}
use fedbox.Handlers.Item.{single, serve_item, handle_item}

-- An enabled cache keeps what is stored in it.
abbrev pub KeepsItems : (V : Vocab) (S : Services V) → Type 0
KeepsItems V S = (c : S.Cache) (k : Iri) (v : V.Item) → S.cached (S.store c k v) k ≡ v

module _ (V : Vocab) (S : Services V) where
  serve_item-hidden :
      (L : CleansRecipients V) (key : Iri) (fb : Server V S) (from_cache : Bool) (it found : V.Item)
      → (serve_item V S key fb from_cache it).1.item ≡ some found
      → V.hidden found ≡ []
  unfolding serve_item
  serve_item-hidden L key fb from_cache it found e = elim (Result-cases (single V S it)) [
    | inl (fault, bad) ↦ ground arith
    | inr (one, good) ↦
        let same : V.clean_recipients one ≡ found = ground arith in rw same at (L.hidden-clean one)
  ]

  -- Where `CleanRecipients` does what is documented of it, whatever item is returned has no
  -- recipients in bto and bcc.
  pub handle_item-hidden :
      (L : CleansRecipients V) (r : Request) (fb : Server V S) (found : V.Item)
      → (handle_item V S r fb).1.item ≡ some found
      → V.hidden found ≡ []
  unfolding handle_item
  handle_item-hidden L r fb found e =
      let key = key_of V S fb r in
      elim (Bool-cases (V.is_nil (S.cached fb.cache key))) [
        | inl missing ↦
            elim (Result-cases (
              S.load fb.storage (requested V S fb r)
                (S.authorized (V.link (requester V S fb r)) ∷ []))) [
                  | inl (fault, refused) ↦ ground arith
                  | inr (it, loaded) ↦ serve_item-hidden L key fb false it found (ground arith)
                ]
        | inr there ↦ serve_item-hidden L key fb true (S.cached fb.cache key) found (ground arith)
      ]

  -- A load that is not in the cache, of an item that is no list of items
  handle_item_loaded :
      (r : Request) (fb : Server V S) (it : V.Item)
      → V.is_nil (S.cached fb.cache (key_of V S fb r)) ≡ true
      → S.load fb.storage (requested V S fb r) (S.authorized (V.link (requester V S fb r)) ∷ [])
        ≡ ok it
      → V.is_item_collection it ≡ false
      → (handle_item V S r fb).0 ≡ record fb { cache = S.store fb.cache (key_of V S fb r) it }
  unfolding handle_item serve_item
  handle_item_loaded r fb it missing loaded plain = ground arith

  handle_item_cached :
      (r : Request) (fb : Server V S) (it : V.Item)
      → S.cached fb.cache (key_of V S fb r) ≡ it
      → V.is_nil it ≡ false
      → V.is_item_collection it ≡ false
      → (handle_item V S r fb).1
        ≡ record { item = some (V.clean_recipients it); error = some not_modified }
  unfolding handle_item serve_item
  handle_item_cached r fb it held there plain = ground arith

  held :
      (kept : KeepsItems V S) (r other : Request) (fb : Server V S) (it : V.Item)
      → req_url other fb.secure ≡ req_url r fb.secure
      → let fb' : Server V S = record fb { cache = S.store fb.cache (key_of V S fb r) it } in
        S.cached fb'.cache (key_of V S fb' other) ≡ it
  held kept r other fb it same =
      let fb' : Server V S = record fb { cache = S.store fb.cache (key_of V S fb r) it } in
      let a = V.link (requester V S fb' other) in
      let b = V.link (requester V S fb r) in
      ap (S.cached fb'.cache)
        ((cache_key-same V fb.secure a a other).1 ∙ same ∙ sym (cache_key-same V fb.secure b b r).1)
      ∙ kept fb.cache (key_of V S fb r) it

  -- With a cache that keeps what is stored in it, an item that one actor may load and that is not in
  -- the cache, not nil and no list of items, then answers every request of the same URL, whoever
  -- makes it: the second actor's authorization is not checked.
  pub handle_item_shared :
      (kept : KeepsItems V S) (r other : Request) (fb : Server V S) (it : V.Item)
      → req_url other fb.secure ≡ req_url r fb.secure
      → V.is_nil (S.cached fb.cache (key_of V S fb r)) ≡ true
      → S.load fb.storage (requested V S fb r) (S.authorized (V.link (requester V S fb r)) ∷ [])
        ≡ ok it
      → V.is_nil it ≡ false
      → V.is_item_collection it ≡ false
      → (handle_item V S other (handle_item V S r fb).0).1
        ≡ record { item = some (V.clean_recipients it); error = some not_modified }
  handle_item_shared kept r other fb it same missing loaded there plain =
      rw (handle_item_loaded r fb it missing loaded plain) (
        handle_item_cached other (record fb { cache = S.store fb.cache (key_of V S fb r) it }) it
          (held kept r other fb it same) there plain)
