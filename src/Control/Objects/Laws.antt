-- ===== src/Control/Objects/Laws.antt =====
-- What moving and copying reach, and how much fuel they take.
use fedbox.Prelude.{
  ℕ, zero, suc, ◌+◌, ◌≡◌, refl, ◌∙◌, ap, ◌≢◌, inl, inr, true, false, Option, none, List, [], ◌∷◌,
  ◌++◌, map, arith, Bool-cases,
}
use Prim.Native.Nat.add
use mathlib.Core.Path.{fun_ext}
use fedbox.Fault.{Fault, ok, Result-cases}
use fedbox.Vocab.{Vocab, Iri}
use fedbox.Control.Store.{Store}
use fedbox.Control.Objects.{
  Outcome, done, Operation, operate_one, operate_each, checked, operate_on_objects, copy_one,
  copy_objects,
}

module _ (V : Vocab) (S : Store V) where
  -- An IRI that loads as a list of items, whatever the state
  abbrev IsListAlways : Iri → Type 0
  IsListAlways c =
      (s : S.State) → (it : V.Item) × (S.load s c [] ≡ ok it) × (V.is_item_collection it ≡ true)

  operate_each_after :
      (inner : List Iri → S.State → Outcome V S) (fn : Operation V S) (to c : Iri)
      (before rest : List Iri)
      → IsListAlways c
      → (s : S.State)
      → operate_each V S inner fn to (before ++ (c ∷ rest)) s
        ≡ operate_each V S inner fn to (before ++ (c ∷ [])) s
  unfolding operate_each
  operate_each_after inner fn to c [] rest h s = let (it, loaded, listed) = h s in ground arith
  operate_each_after inner fn to c (b ∷ before) rest h s =
      ap (λ k. operate_one V S inner fn to b k s)
        (fun_ext (operate_each_after inner fn to c before rest h))

  -- Whatever follows an IRI that loads as a list of items in every state is passed over: the
  -- operation is not applied to it.
  operate_on_objects_after :
      (fuel : ℕ) (fn : Operation V S) (to c : Iri) (before rest : List Iri) (s : S.State)
      → IsListAlways c
      → operate_on_objects V S fuel fn to (before ++ (c ∷ rest)) s
        ≡ operate_on_objects V S fuel fn to (before ++ (c ∷ [])) s
  unfolding operate_on_objects
  operate_on_objects_after zero fn to c before rest s h = refl
  operate_on_objects_after (suc fuel) fn to c before rest s h =
      ap (checked V S to s)
        (fun_ext (operate_each_after (operate_on_objects V S fuel fn to) fn to c before rest h))

  -- Where the first operation ends, the second one ends alike.
  abbrev Extends : (List Iri → S.State → Outcome V S) → (List Iri → S.State → Outcome V S) → Type 0
  Extends f g =
      (from : List Iri) (s t : S.State) (e : Option Fault)
      → f from s ≡ done t e
      → g from s ≡ done t e

  operate_each-Extends :
      (f g : List Iri → S.State → Outcome V S) (fn : Operation V S) (to : Iri)
      → Extends f g
      → Extends (operate_each V S f fn to) (operate_each V S g fn to)
  unfolding operate_each
  operate_each-Extends f g fn to h [] s t e d = d
  operate_each-Extends f g fn to h (iri ∷ from) s t e d = elim (Result-cases (S.load s iri [])) [
    | inl (fault, bad) ↦ ground arith
    | inr (it, loaded) ↦ elim (Bool-cases (V.is_item_collection it)) [
      | inl several ↦ elim (Result-cases (V.members it)) [
        | inl (fault, bad) ↦ ground arith
        | inr (its, members) ↦ ground (arith, h (map V.link its) s t e)
      ]
      | inr one ↦ ground (arith, operate_each-Extends f g fn to h from (fn to it s).0 t e)
    ]
  ]

  operate_on_objects-Extends :
      (fuel more : ℕ) (fn : Operation V S) (to : Iri)
      → Extends (operate_on_objects V S fuel fn to) (operate_on_objects V S (fuel + more) fn to)
  unfolding operate_on_objects checked
  operate_on_objects-Extends zero more fn to from s t e d = cc
  operate_on_objects-Extends (suc fuel) more fn to from s t e d = rw (add.suc fuel more) (
      ground (
        arith,
        operate_each-Extends (operate_on_objects V S fuel fn to)
            (operate_on_objects V S (fuel + more) fn to) fn to
            (operate_on_objects-Extends fuel more fn to) from s t e,
      ))

  -- Fuel that is enough once gives the same result with any more of it.
  pub operate_on_objects_fuel :
      (fuel more : ℕ) (fn : Operation V S) (to : Iri) (from : List Iri) (s t : S.State)
      (e : Option Fault)
      → operate_on_objects V S fuel fn to from s ≡ done t e
      → operate_on_objects V S (fuel + more) fn to from s ≡ done t e
  operate_on_objects_fuel fuel more fn to = operate_on_objects-Extends fuel more fn to

  -- The IRIs load as objects that are no lists of items, and none of them is the destination.
  unfoldable Loads : S.State → Iri → List Iri → List V.Item → Type 0
  Loads s to [] [] = Unit
  Loads s to [] (it ∷ its) = ⊥
  Loads s to (iri ∷ from) [] = ⊥
  Loads s to (iri ∷ from) (it ∷ its) =
      (iri ≢ to)
      × (S.load s iri [] ≡ ok it)
      × (V.is_item_collection it ≡ false)
      × (V.is_object it ≡ true)
      × Loads s to from its

  -- Adding to a collection changes what is loaded at no other IRI.
  abbrev pub AddsApart : Type 0
  AddsApart =
      (s : S.State) (to iri : Iri) (it : V.Item)
      → iri ≢ to
      → S.load (S.add_to s to it).0 iri [] ≡ S.load s iri []

  -- The items, added one after the other, whatever errors that gives
  unfoldable add_all : Iri → List V.Item → S.State → S.State
  add_all to [] s = s
  add_all to (it ∷ its) s = add_all to its (S.add_to s to it).0

  Loads-add_to :
      (apart : AddsApart) (s : S.State) (to : Iri) (it : V.Item) (from : List Iri)
      (its : List V.Item)
      → Loads s to from its
      → Loads (S.add_to s to it).0 to from its
  unfolding Loads
  Loads-add_to apart s to it [] [] h = tt
  Loads-add_to apart s to it [] (i ∷ its) h = h
  Loads-add_to apart s to it (iri ∷ from) [] h = h
  Loads-add_to apart s to it (iri ∷ from) (i ∷ its) (ne, loaded, one, object, h) =
      (ne, apart s to iri it ne ∙ loaded, one, object, Loads-add_to apart s to it from its h)

  operate_each-add_all :
      (apart : AddsApart) (inner : List Iri → S.State → Outcome V S) (to : Iri) (from : List Iri)
      (its : List V.Item) (s : S.State)
      → Loads s to from its
      → operate_each V S inner (copy_one V S) to from s ≡ done (add_all to its s) none
  unfolding operate_each Loads add_all
  operate_each-add_all apart inner to [] [] s h = refl
  operate_each-add_all apart inner to [] (it ∷ its) s h = absurd h
  operate_each-add_all apart inner to (iri ∷ from) [] s h = absurd h
  operate_each-add_all apart inner to (iri ∷ from) (it ∷ its) s (ne, loaded, one, object, h) =
      rw (loaded, operate_one, one, object)
        (operate_each-add_all apart inner to from its (S.add_to s to it).0
          (Loads-add_to apart s to it from its h))

  -- On a storage with collections, where adding to a collection changes what is loaded at no other
  -- IRI, copying objects that load and are no lists of items to another collection that loads, with
  -- any fuel but none, ends without an error after every one of them was added in order, also when
  -- adding one fails.
  copy_objects-add_all :
      (apart : AddsApart) (fuel : ℕ) (to : Iri) (from : List Iri) (its : List V.Item) (s : S.State)
      (col : V.Item)
      → S.is_collection_store ≡ true
      → V.valid_collection_iri to ≡ true
      → S.load s to [] ≡ ok col
      → Loads s to from its
      → copy_objects V S (suc fuel) to from s ≡ done (add_all to its s) none
  unfolding copy_objects checked
  copy_objects-add_all apart fuel to from its s col store valid found h = ground (
    arith,
    operate_each-add_all apart (operate_on_objects V S fuel (copy_one V S) to) to from its s h,
  )
