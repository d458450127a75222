-- ===== src/Control/Objects/Depth.antt =====
-- How much fuel is enough for `operateOnObjects`.
use fedbox.Prelude.{
  ℕ, zero, suc, ◌+◌, ◌<◌, ◌≡◌, refl, inl, inr, true, Option, none, some, List, [], ◌∷◌, map, arith,
  Bool-cases, Option-cases, All,
}
use fedbox.Fault.{Fault, ok, failed, Result-cases}
use fedbox.Vocab.{Vocab, Iri}
use fedbox.Control.Store.{Store}
use fedbox.Control.Objects.{
  Outcome, done, Operation, operate_each, operate_on_objects, checked, operate_one,
}
use fedbox.Control.Objects.Laws.{operate_on_objects_fuel}

module _ (V : Vocab) (S : Store V) (Sound : S.State → Type 0) (rank : Iri → ℕ) where
  -- In a sound state a list of items has a rank above 0, and above that of what it holds.
  abbrev pub Ranked : Type 0
  Ranked =
      (s : S.State) (iri : Iri) (it : V.Item) (its : List V.Item)
      → Sound s
      → S.load s iri [] ≡ ok it
      → V.is_item_collection it ≡ true
      → V.members it ≡ ok its
      → (0 < rank iri) × All (λ m. rank (V.link m) < rank iri) its

  abbrev Keeps : Operation V S → Type 0
  Keeps fn = (to : Iri) (it : V.Item) (s : S.State) → Sound s → Sound (fn to it s).0

  abbrev Ends : Outcome V S → Type 0
  Ends o = (t : S.State) × (e : Option Fault) × (o ≡ done t e)

  below :
      (iri : Iri) (fuel : ℕ) (its : List V.Item)
      → rank iri < suc fuel
      → All (λ m. rank (V.link m) < rank iri) its
      → All (λ i. rank i < fuel) (map V.link its)
  below iri fuel [] h all = tt
  below iri fuel (it ∷ its) h all = (omega (arith, h, all.0), below iri fuel its h all.1)

  operate_each-Ends :
      (ranked : Ranked) (fn : Operation V S) (keeps : Keeps fn) (fuel : ℕ) (to : Iri)
      (inner : List Iri → S.State → Outcome V S)
      → ((is : List Iri) (s : S.State)
          → Sound s
          → 0 < fuel
          → All (λ i. rank i < fuel) is
          → Ends (inner is s))
      → (from : List Iri) (s : S.State) → Sound s
      → All (λ i. rank i < suc fuel) from
      → Ends (operate_each V S inner fn to from s)
  unfolding operate_each operate_one
  operate_each-Ends ranked fn keeps fuel to inner ends [] s sound all = (s, none, refl)
  operate_each-Ends ranked fn keeps fuel to inner ends (iri ∷ from) s sound all =
      elim (Result-cases (S.load s iri [])) [
        | inl (e, lost) ↦ (s, some e, rw (lost, operate_each, operate_one) refl)
        | inr (it, found) ↦ elim (Bool-cases (V.is_item_collection it)) [
          | inl several ↦ elim (Result-cases (V.members it)) [
            | inl (e, bad) ↦ (s, some e, rw (found, operate_each, operate_one, several, bad) refl)
            | inr (its, members) ↦
                let deeper = ranked s iri it its sound found several members in
                let (t, e, run) =
                  ends (map V.link its) s sound (omega (arith, deeper.0, all.0))
                    (below iri fuel its all.0 deeper.1) in
                (t, e, rw (found, operate_each, operate_one, several, members) run)
          ]
          | inr one ↦ elim (Bool-cases (V.is_object it)) [
            | inr other ↦ (s, some failed, rw (found, operate_each, operate_one, one, other) refl)
            | inl object ↦ elim (Option-cases (fn to it s).1) [
              | inr (e, bad) ↦ ((fn to it s).0, some e, ground arith)
              | inl fine ↦
                  let (t, e, run) =
                    operate_each-Ends ranked fn keeps fuel to inner ends from (fn to it s).0
                      (keeps to it s sound) all.1 in
                  (t, e, ground arith)
            ]
          ]
        ]
      ]

  operate_on_objects-Ends :
      (ranked : Ranked) (fn : Operation V S) (keeps : Keeps fn) (fuel : ℕ) (to : Iri)
      (from : List Iri) (s : S.State)
      → Sound s
      → 0 < fuel
      → All (λ i. rank i < fuel) from
      → Ends (operate_on_objects V S fuel fn to from s)
  unfolding operate_on_objects checked
  operate_on_objects-Ends ranked fn keeps zero to from s sound some_fuel all = ground arith
  operate_on_objects-Ends ranked fn keeps (suc fuel) to from s sound some_fuel all =
      elim (Bool-cases (V.valid_collection_iri to)) [
        | inr other ↦ (s, some failed, rw other refl)
        | inl valid ↦ elim (Result-cases (S.load s to [])) [
          | inl (e, lost) ↦ (s, some e, rw (valid, lost) refl)
          | inr (col, found) ↦
              let (t, e, run) =
                operate_each-Ends ranked fn keeps fuel to (operate_on_objects V S fuel fn to)
                  (operate_on_objects-Ends ranked fn keeps fuel to) from s sound all in
              (t, e, rw (valid, found) run)
        ]
      ]

  -- If an operation keeps states sound, and in a sound state the lists of items have ranks above 0
  -- and above those of what they hold, then operateOnObjects from a sound state ends, in one and
  -- the same way with any fuel that is above 0 and above the ranks of the IRIs it starts from.
  pub operate_on_objects_ends :
      (ranked : Ranked) (fn : Operation V S) (keeps : Keeps fn) (fuel : ℕ) (to : Iri)
      (from : List Iri) (s : S.State)
      → Sound s
      → 0 < fuel
      → All (λ i. rank i < fuel) from
      → (t : S.State) × (e : Option Fault) × ((more : ℕ)
          → operate_on_objects V S (fuel + more) fn to from s ≡ done t e)
  operate_on_objects_ends ranked fn keeps fuel to from s sound some_fuel all =
      let (t, e, run) =
        operate_on_objects-Ends ranked fn keeps fuel to from s sound some_fuel all in
      (t, e, λ more. operate_on_objects_fuel V S fuel more fn to from s t e run)
