-- ===== src/Control/Repair/Laws.antt =====
-- What can be loaded after a repair.
use fedbox.Prelude.{
  ◌≡◌, refl, ap, inl, inr, true, false, none, List, [], ◌∷◌, ◌++◌, arith, All, contains, text_eq,
  Bool-cases,
}
use fedbox.Fault.{Fault, Result, ok, err, Result-cases}
use fedbox.Vocab.{Vocab, Iri}
use fedbox.Control.Store.{Store}
use fedbox.Control.Repair.{
  Collections, save_members, recount, recount_saved, create_checked, without_item,
  try_create_collection, try_create_all, stream_iris, get_actor_collections, initial_collections,
  try_create_actor_collections, object_collections, try_create_all_objects_collections,
  fix_collections,
}

-- Something is loaded at an IRI.
abbrev pub Loadable : (V : Vocab) (S : Store V) → S.State → Iri → Type 0
Loadable V S s i = (it : V.Item) × (S.load s i [] ≡ ok it)

-- What is asked of a storage: what it cannot load is not there, a new collection can be saved and
-- is found at its IRI, and saving loses nothing.
pub record Creates (V : Vocab) (S : Store V) (C : Collections V) : Type 0 where
  pub missing :
      (s : S.State) (i : Iri) (e : Fault) → S.load s i [] ≡ err e → S.is_not_found e ≡ true
  pub created : (s : S.State) (i : Iri) → Loadable V S (S.save s (C.ordered_collection i)).0 i
  pub kept :
      (s : S.State) (i : Iri) (it : V.Item) → Loadable V S s i → Loadable V S (S.save s it).0 i

module _ (V : Vocab) (S : Store V) (C : Collections V) (L : Creates V S C) where
  save_members-Loadable :
      (its : List V.Item) (s : S.State) (i : Iri)
      → Loadable V S s i
      → Loadable V S (save_members V S C its s) i
  unfolding save_members
  save_members-Loadable [] s i h = h
  save_members-Loadable (it ∷ its) s i h =
      save_members-Loadable its (S.save s it).0 i (L.kept s i it h)

  without_item-Loadable :
      (p : S.State × Result V.Item) (i : Iri)
      → Loadable V S p.0 i
      → Loadable V S (without_item V S C p).0 i
  without_item-Loadable (s, ok it) i h = h
  without_item-Loadable (s, err e) i h = h

  recount-Loadable :
      (items : V.Item) (s : S.State) (i : Iri)
      → Loadable V S s i
      → Loadable V S (recount V S C items s).0 i
  unfolding recount
  recount-Loadable items s i h = elim (Result-cases (C.to_ordered_collection items)) [
    | inl (e, bad) ↦ rw (bad, recount) h
    | inr (col, good) ↦ elim (Result-cases (V.members items)) [
      | inl (e, bad) ↦ rw (good, recount, bad) (without_item-Loadable _ i (L.kept s i _ h))
      | inr (its, all) ↦
          rw (good, recount, all)
            (without_item-Loadable _ i (L.kept _ i _ (save_members-Loadable its s i h)))
    ]
  ]

  recount_saved-Loadable :
      (items : V.Item) (p : S.State × Result V.Item) (i : Iri)
      → Loadable V S p.0 i
      → Loadable V S (recount_saved V S C items p).0 i
  unfolding recount_saved
  recount_saved-Loadable items (s, err e) i h = h
  recount_saved-Loadable items (s, ok it) i h = recount-Loadable items s i h

  create_checked_state : (p : S.State × Result V.Item) → (create_checked V S C p).0 ≡ p.0
  unfolding create_checked
  create_checked_state (s, err e) = refl
  create_checked_state (s, ok it) = elim (Result-cases (C.to_ordered_collection it)) [
    | inl (e, bad) ↦ rw (bad, create_checked) refl
    | inr (col, good) ↦ rw (good, create_checked) refl
  ]

  create-Loadable :
      (c : Iri) (s : S.State) (i : Iri)
      → Loadable V S s i
      → Loadable V S (try_create_collection V S C c s).0 i
  unfolding try_create_collection
  create-Loadable c s i h = elim (Result-cases (S.load s c [])) [
    | inl (e, bad) ↦
        rw (bad, try_create_collection, L.missing s c e bad, create_checked_state)
          (L.kept s i (C.ordered_collection c) h)
    | inr (items, good) ↦ elim (Bool-cases (V.is_nil items)) [
      | inl nil ↦ rw (good, try_create_collection, nil) h
      | inr some_items ↦ elim (Bool-cases (V.is_collection items)) [
        | inl col ↦ rw (good, try_create_collection, some_items, col) (recount-Loadable items s i h)
        | inr other ↦
            rw (good, try_create_collection, some_items, other)
              (recount_saved-Loadable items (S.save s items) i (L.kept s i items h))
      ]
    ]
  ]

  created-Loadable : (c : Iri) (s : S.State) → Loadable V S (try_create_collection V S C c s).0 c
  unfolding try_create_collection
  created-Loadable c s = elim (Result-cases (S.load s c [])) [
    | inl (e, bad) ↦
        rw (bad, try_create_collection, L.missing s c e bad, create_checked_state) (L.created s c)
    | inr found ↦ create-Loadable c s c found
  ]

  create_all-Loadable :
      (cols : List Iri) (s : S.State) (i : Iri)
      → Loadable V S s i
      → Loadable V S (try_create_all V S C cols s) i
  unfolding try_create_all
  create_all-Loadable [] s i h = h
  create_all-Loadable (c ∷ cols) s i h =
      create_all-Loadable cols (try_create_collection V S C c s).0 i (create-Loadable c s i h)

  All-created :
      (cols : List Iri) (s : S.State) → All (Loadable V S (try_create_all V S C cols s)) cols
  unfolding try_create_all
  All-created [] s = tt
  All-created (c ∷ cols) s =
      let next = (try_create_collection V S C c s).0 in
      (create_all-Loadable cols next c (created-Loadable c s), All-created cols next)

  All-kept :
      (cols is : List Iri) (s : S.State)
      → All (Loadable V S s) is
      → All (Loadable V S (try_create_all V S C cols s)) is
  All-kept cols [] s h = tt
  All-kept cols (i ∷ is) s (one, h) = (create_all-Loadable cols s i one, All-kept cols is s h)

  -- The lists of collections that the repair goes through
  pub fix_collections-All :
      (service : V.Item) (s : S.State) (streams : List V.Item)
      → S.is_collection_store ≡ true
      → C.streams service ≡ ok streams
      → let first = initial_collections V S C service streams in
        let found = object_collections V S C service streams (try_create_all V S C first s) in
        ((fix_collections V S C service s).1 ≡ none)
        × All (Loadable V S (fix_collections V S C service s).0) first
        × All (Loadable V S (fix_collections V S C service s).0) found
  unfolding fix_collections try_create_actor_collections try_create_all_objects_collections
  fix_collections-All service s streams store read =
      let first = initial_collections V S C service streams in
      let next = try_create_all V S C first s in
      let found = object_collections V S C service streams next in
      let ended : fix_collections V S C service s ≡ (try_create_all V S C found next, none) =
        ground arith in
      rw ended (refl, All-kept found first next (All-created first s), All-created found next)

module _ (V : Vocab) (S : Store V) (C : Collections V) where
  stream_iris_after :
      (stream : V.Item) (before rest : List V.Item)
      → contains C.all_paths (C.split (V.link stream)) ≡ false
      → stream_iris V S C (before ++ (stream ∷ rest)) ≡ stream_iris V S C (before ++ (stream ∷ []))
  unfolding stream_iris
  stream_iris_after stream [] rest other = ground arith
  stream_iris_after stream (b ∷ before) rest other =
      ground (arith, stream_iris_after stream before rest other)

  -- The streams of an actor that follow one which is no collection have no effect on the repair.
  initial_collections_after :
      (actor stream : V.Item) (before rest : List V.Item)
      → contains C.all_paths (C.split (V.link stream)) ≡ false
      → initial_collections V S C actor (before ++ (stream ∷ rest))
        ≡ initial_collections V S C actor (before ++ (stream ∷ []))
  unfolding initial_collections
  initial_collections_after actor stream before rest other =
      ap (λ is. get_actor_collections V S C actor ++ is)
        (stream_iris_after stream before rest other)
