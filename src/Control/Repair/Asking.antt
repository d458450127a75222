-- ===== src/Control/Repair/Asking.antt =====
-- The collections that a repair is asked for, one by one.
use fedbox.Prelude.{
  ◌≡◌, sym, ◌≢◌, ◌⊎◌, true, false, none, List, [], ◌∷◌, ◌++◌, ◌==◌, text_eq, text_beq_iff, All,
  All-lookup, All-left, All-right, contains, Bool-cases, inl, inr, arith,
}
use mathlib.Core.Path.{subst}
use mathlib.Core.List.{Memᴰ}
use fedbox.Fault.{ok}
use fedbox.Vocab.{Vocab, Iri, CollectionPath}
use fedbox.Control.Store.{Store}
use fedbox.Control.Repair.{
  Collections, collections_of, stream_iris, get_actor_collections, get_object_collections,
  initial_collections, member_collections, loaded_collections, object_collections, try_create_all,
  try_create_actor_collections, fix_collections,
}
use fedbox.Control.Repair.Laws.{Loadable, Creates, fix_collections-All}

module _ (V : Vocab) (S : Store V) (C : Collections V) where
  -- The last segment of an item's link is that of a collection.
  abbrev IsCollectionPath : V.Item → Type 0
  IsCollectionPath it = contains C.all_paths (C.split (V.link it)) ≡ true

  -- An item is a member of what is stored at a stream of the service that holds objects.
  pub record StreamMember (service : V.Item) (streams : List V.Item) (s : S.State) (it : V.Item)
      : Type 0 where
    pub stream : V.Item
    pub streamed : Memᴰ stream streams
    pub holds_objects : contains C.stream_paths (C.split (V.link stream)) ≡ true
    pub items : V.Item
    pub loaded : S.load s (C.iri (C.split (V.link stream)) service) [] ≡ ok items
    pub its : List V.Item
    pub members : V.members items ≡ ok its
    pub member : Memᴰ it its

  -- The IRI of a collection that the repair is asked for: one of the service's own, the link of a
  -- stream that is a collection, as are all streams before it, or one of the collections of a
  -- member of a stream, in a state of the storage.
  pub data Asked (service : V.Item) (streams : List V.Item) (s : S.State) : Iri → Type 0 where
    own :
        (col : CollectionPath)
        → Memᴰ col C.of_actor
        → C.iri col service ≢ []
        → Asked service streams s (C.iri col service)
    of_stream :
        (before : List V.Item) (stream : V.Item) (rest : List V.Item)
        → streams ≡ before ++ (stream ∷ rest)
        → All IsCollectionPath before
        → IsCollectionPath stream
        → Asked service streams s (V.link stream)
    of_actor :
        (it : V.Item) (col : CollectionPath)
        → StreamMember service streams s it
        → V.matches V.actor_types (V.types it) ≡ true
        → Memᴰ col C.of_actor
        → C.iri col it ≢ []
        → Asked service streams s (C.iri col it)
    of_object :
        (it : V.Item) (col : CollectionPath)
        → StreamMember service streams s it
        → V.matches V.actor_types (V.types it) ≡ false
        → V.is_collection it ≡ false
        → Memᴰ col C.of_object
        → C.iri col it ≢ []
        → Asked service streams s (C.iri col it)

  -- A property of IRIs that the lists of the repair have
  module _ (P : Iri → Type 0) where
    All-collections_of :
        (cols : List CollectionPath) (it : V.Item) (col : CollectionPath)
        → All P (collections_of V S C cols it)
        → Memᴰ col cols
        → C.iri col it ≢ []
        → P (C.iri col it)
    unfolding collections_of
    All-collections_of [] it col h c some_iri = elim c [ ]
    All-collections_of (c' ∷ cols) it col h c some_iri = elim (Bool-cases (C.iri c' it == [])) [
      | inl empty ↦ elim c [
        | Memᴰ.head same ↦
            elim (some_iri (
              subst (λ k. C.iri k it ≡ []) (sym same)
                ((text_beq_iff (C.iri c' it) []).0 empty))) [ ]
        | Memᴰ.tail later ↦ All-collections_of cols it col (rw empty at h) later some_iri
      ]
      | inr full ↦
          let h' : P (C.iri c' it) × All P (collections_of V S C cols it) = rw full at h in
          elim c [
            | Memᴰ.head same ↦ subst (λ k. P (C.iri k it)) (sym same) h'.0
            | Memᴰ.tail later ↦ All-collections_of cols it col h'.1 later some_iri
          ]
    ]

    All-stream_iris :
        (before : List V.Item) (stream : V.Item) (rest : List V.Item)
        → All P (stream_iris V S C (before ++ (stream ∷ rest)))
        → All IsCollectionPath before
        → IsCollectionPath stream
        → P (V.link stream)
    unfolding stream_iris
    All-stream_iris [] stream rest h all is =
        let h' : P (V.link stream) × All P (stream_iris V S C rest) = rw is at h in h'.0
    All-stream_iris (b ∷ before) stream rest h (one, all) is =
        let h' : P (V.link b) × All P (stream_iris V S C (before ++ (stream ∷ rest))) =
          rw one at h in
        All-stream_iris before stream rest h'.1 all is

    -- The collections of a single member
    abbrev Collected : V.Item → Type 0
    Collected it =
        ((V.matches V.actor_types (V.types it) ≡ true) × All P (get_actor_collections V S C it))
        ⊎ ((V.matches V.actor_types (V.types it) ≡ false) × (V.is_collection it ≡ true))
        ⊎ ((V.matches V.actor_types (V.types it) ≡ false)
            × (V.is_collection it ≡ false)
            × All P (get_object_collections V S C it))

    All-member_collections :
        (its : List V.Item) → All P (member_collections V S C its) → All Collected its
    unfolding member_collections
    All-member_collections [] h = tt
    All-member_collections (it ∷ its) h = elim (Bool-cases (V.matches V.actor_types (V.types it))) [
      | inl actor ↦
          let h' : All P (get_actor_collections V S C it ++ member_collections V S C its) =
            rw actor at h in
          (
            inl (actor, All-left P (get_actor_collections V S C it) _ h'),
            All-member_collections its (All-right P (get_actor_collections V S C it) _ h'),
          )
      | inr no_actor ↦ elim (Bool-cases (V.is_collection it)) [
        | inl col ↦
            let h' : All P (member_collections V S C its) = rw (no_actor, col) at h in
            (inr (inl (no_actor, col)), All-member_collections its h')
        | inr no_col ↦
            let h' : All P (get_object_collections V S C it ++ member_collections V S C its) =
              rw (no_actor, no_col) at h in
            (
              inr (inr (no_actor, no_col, All-left P (get_object_collections V S C it) _ h')),
              All-member_collections its (All-right P (get_object_collections V S C it) _ h'),
            )
      ]
    ]

    All-object_collections :
        (service : V.Item) (streams : List V.Item) (s : S.State) (stream : V.Item)
        → All P (object_collections V S C service streams s)
        → Memᴰ stream streams
        → contains C.stream_paths (C.split (V.link stream)) ≡ true
        → All P (loaded_collections V S C (S.load s (C.iri (C.split (V.link stream)) service) []))
    unfolding object_collections
    All-object_collections service [] s stream h c holds = elim c [ ]
    All-object_collections service (x ∷ xs) s stream h (Memᴰ.head same) holds =
        let here = subst (λ y. contains C.stream_paths (C.split (V.link y)) ≡ true) same holds in
        subst
          (λ y. All P (loaded_collections V S C (S.load s (C.iri (C.split (V.link y)) service) [])))
          (sym same) (All-left P _ (object_collections V S C service xs s) (rw here at h))
    All-object_collections service (x ∷ xs) s stream h (Memᴰ.tail c) holds =
        elim (Bool-cases (contains C.stream_paths (C.split (V.link x)))) [
          | inl here ↦
              All-object_collections service xs s stream
                (All-right P
                  (loaded_collections V S C (S.load s (C.iri (C.split (V.link x)) service) []))
                  (object_collections V S C service xs s) (rw here at h))
                c holds
          | inr other ↦ All-object_collections service xs s stream (rw other at h) c holds
        ]

    StreamMember-Collected :
        (service : V.Item) (streams : List V.Item) (s : S.State) (it : V.Item)
        → All P (object_collections V S C service streams s)
        → StreamMember service streams s it
        → Collected it
    unfolding loaded_collections
    StreamMember-Collected service streams s it h m =
        let all = All-object_collections service streams s m.stream h m.streamed m.holds_objects in
        All-lookup Collected m.its it
          (All-member_collections m.its (rw (m.loaded, loaded_collections, m.members) at all))
          m.member

    Asked-All :
        (service : V.Item) (streams : List V.Item) (s : S.State) (i : Iri)
        → All P (initial_collections V S C service streams)
        → All P (object_collections V S C service streams s)
        → Asked service streams s i
        → P i
    unfolding initial_collections get_actor_collections get_object_collections
    Asked-All service streams s _ first found (own col c some_iri) =
        All-collections_of C.of_actor service col (All-left P _ (stream_iris V S C streams) first) c
          some_iri
    Asked-All service streams s _ first found (of_stream before stream rest is all one) =
        All-stream_iris before stream rest
          (subst (λ xs. All P (stream_iris V S C xs)) is
            (All-right P (get_actor_collections V S C service) _ first))
          all one
    Asked-All service streams s _ first found (of_actor it col m actor c some_iri) =
        elim (StreamMember-Collected service streams s it found m) [
          | inl (matched, all) ↦ All-collections_of C.of_actor it col all c some_iri
          | inr (inl (unmatched, is)) ↦ ground arith
          | inr (inr (unmatched, is, all)) ↦ ground arith
        ]
    Asked-All service streams s _ first found (of_object it col m no_actor no_col c some_iri) =
        elim (StreamMember-Collected service streams s it found m) [
          | inl (matched, all) ↦ ground arith
          | inr (inl (unmatched, is)) ↦ ground arith
          | inr (inr (unmatched, is, all)) ↦ All-collections_of C.of_object it col all c some_iri
        ]

  -- On a storage with collections that creates what it lacks and loses nothing, and for a service
  -- whose streams can be read, the repair ends without an error, and after it something is loaded at
  -- each collection of the service, at each of its streams up to the first that is no collection,
  -- and at each collection of a member of a stream of objects, actor or object, as these streams
  -- were once the collections of the service had been created.
  pub fix_collections-Loadable :
      (L : Creates V S C) (service : V.Item) (s : S.State) (streams : List V.Item) (i : Iri)
      → S.is_collection_store ≡ true
      → C.streams service ≡ ok streams
      → Asked service streams (try_create_actor_collections V S C service s).0 i
      → ((fix_collections V S C service s).1 ≡ none)
        × Loadable V S (fix_collections V S C service s).0 i
  unfolding try_create_actor_collections
  fix_collections-Loadable L service s streams i store read asked =
      let first = initial_collections V S C service streams in
      let next = try_create_all V S C first s in
      let (ended, at_first, at_found) = fix_collections-All V S C L service s streams store read in
      let asked' : Asked service streams next i =
        rw (read, try_create_actor_collections) at asked in
      (
        ended,
        Asked-All (Loadable V S (fix_collections V S C service s).0) service streams next i at_first
            at_found asked',
      )
