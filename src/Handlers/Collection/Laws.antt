-- ===== src/Handlers/Collection/Laws.antt =====
-- What `HandleCollection` returns: cleaned collections.
use fedbox.Prelude.{
  ◌≡◌, ◌∙◌, inl, inr, Bool, true, false, some, List, [], ◌∷◌, map, arith, All, text_eq, Bool-cases,
}
use fedbox.Fault.{ok, Result-cases}
use fedbox.Vocab.{Vocab, Iri, CollectionPath, CleansRecipients}
use fedbox.Http.{Request, req_url, cache_key}
use fedbox.Handlers.Services.{Services, Server, Reply, actor_from_request}
use fedbox.Handlers.Collection.{
  collection_checks, serve_collection, load_collection, page_of_collection, handle_collection,
}

module _ (V : Vocab) (S : Services V) where
  -- A collection with readable members, in which no recipient is left in bto or bcc of the
  -- collection or of a member.
  pub IsClean : V.Item → Type 0
  IsClean col =
      (V.hidden col ≡ [])
      × (xs : List V.Item) × (V.members col ≡ ok xs)
      × All (λ x. V.hidden x ≡ []) xs

  abbrev Cleaned : Server V S × Reply V S → Type 0
  Cleaned result = (col : V.Item) → result.1.item ≡ some col → IsClean col

  module _ (L : CleansRecipients V) where
    All-clean : (xs : List V.Item) → All (λ x. V.hidden x ≡ []) (map V.clean_recipients xs)
    All-clean [] = tt
    All-clean (x ∷ xs) = (L.hidden-clean x, All-clean xs)

    map_members-IsClean :
        (it : V.Item) (xs : List V.Item)
        → V.members it ≡ ok xs
        → IsClean (V.map_members V.clean_recipients (V.clean_recipients it))
    unfolding IsClean
    map_members-IsClean it xs e = (
      L.hidden-map V.clean_recipients (V.clean_recipients it) ∙ L.hidden-clean it,
      map V.clean_recipients xs,
      L.members-map V.clean_recipients (V.clean_recipients it) xs (L.members-clean it ∙ e),
      All-clean xs,
    )

    serve_collection-Cleaned :
        (key : Iri) (fb : Server V S) (from_cache : Bool) (it : V.Item)
        → Cleaned (serve_collection V S key fb from_cache it)
    unfolding serve_collection
    serve_collection-Cleaned key fb from_cache it col e = elim (Result-cases (V.members it)) [
      | inl (fault, bad) ↦ ground arith
      | inr (xs, good) ↦
          let same : V.map_members V.clean_recipients (V.clean_recipients it) ≡ col =
            ground arith in
          rw same at (map_members-IsClean it xs good)
    ]

    load_collection-Cleaned :
        (iri key : Iri) (authorized : V.Item) (r : Request) (fb : Server V S)
        → Cleaned (load_collection V S iri key authorized r fb)
    unfolding load_collection
    load_collection-Cleaned iri key authorized r fb col e =
        elim (Bool-cases (V.is_nil (S.cached fb.cache key))) [
          | inl missing ↦
              elim (Result-cases
                (S.load fb.storage iri (collection_checks V S iri authorized r.raw_query))) [
                  | inl (fault, refused) ↦ ground arith
                  | inr (it, loaded) ↦ serve_collection-Cleaned key fb false it col (ground arith)
                ]
          | inr found ↦
              serve_collection-Cleaned key fb true (S.cached fb.cache key) col (ground arith)
        ]

    -- Where `CleanRecipients` does what is documented of it, whatever collection is returned, loaded
    -- or cached, has readable members and no recipients in bto and bcc of itself or of a member.
    pub handle_collection-IsClean :
        (typ : CollectionPath) (r : Request) (fb : Server V S) (col : V.Item)
        → (handle_collection V S typ r fb).1.item ≡ some col
        → IsClean col
    unfolding handle_collection page_of_collection
    handle_collection-IsClean typ r fb col e =
        let iri = req_url r fb.secure in
        let authorized = actor_from_request V S fb.storage r iri in
        let keyed = cache_key V fb.secure (V.link authorized) r in
        load_collection-Cleaned iri keyed.0 authorized keyed.1 fb col (ground arith)
