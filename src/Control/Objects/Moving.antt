-- ===== src/Control/Objects/Moving.antt =====
-- What `MoveObjects` leaves of the objects that it moves.
use fedbox.Prelude.{◌≡◌, ◌≢◌, true, false, none, List, [], ◌∷◌, All, text_eq}
use fedbox.Fault.{Fault, ok}
use fedbox.Vocab.{Vocab, Iri}
use fedbox.Control.Store.{Store}
use fedbox.Control.Objects.Laws.{AddsApart}

module _ (V : Vocab) (S : Store V) where
  -- What is documented of a storage that works: adding to a collection and deleting give no error and
  -- change what is loaded at no other IRI, and what was deleted is not loaded.
  pub record Deletes : Type 0 where
    pub adds_apart : AddsApart V S
    pub added : (s : S.State) (to : Iri) (it : V.Item) → (S.add_to s to it).1 ≡ none
    pub deleted : (s : S.State) (i : Iri) → (S.delete s i).1 ≡ none
    pub deletes_apart :
        (s : S.State) (i j : Iri) → j ≢ i → S.load (S.delete s i).0 j [] ≡ S.load s j []
    pub gone : (s : S.State) (i : Iri) (it : V.Item) → S.load (S.delete s i).0 i [] ≢ ok it

  -- Nothing is loaded at an IRI.
  abbrev pub Gone : S.State → Iri → Type 0
  Gone s i = (it : V.Item) → S.load s i [] ≢ ok it

  abbrev moved : Iri → V.Item → S.State → S.State
  moved to it s = (S.delete (S.add_to s to it).0 (V.link it)).0

  -- The items, each added to the collection and then deleted
  unfoldable pub move_all : Iri → List V.Item → S.State → S.State
  move_all to [] s = s
  move_all to (it ∷ its) s = move_all to its (moved to it s)

  -- The IRIs load as objects that are no lists of items; neither they nor the links of the objects
  -- are the destination, and no link is one of the IRIs that follow.
  unfoldable pub Movable : S.State → Iri → List Iri → List V.Item → Type 0
  Movable s to [] [] = Unit
  Movable s to [] (it ∷ its) = ⊥
  Movable s to (iri ∷ from) [] = ⊥
  Movable s to (iri ∷ from) (it ∷ its) =
      (iri ≢ to)
      × (V.link it ≢ to)
      × All (λ j. j ≢ V.link it) from
      × (S.load s iri [] ≡ ok it)
      × (V.is_item_collection it ≡ false)
      × (V.is_object it ≡ true)
      × Movable s to from its
