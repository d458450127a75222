-- ===== src/Control/Objects.antt =====
-- `operateOnObjects`, `MoveObjects` and `CopyObjects`.
pub mod Laws
pub mod Moving
pub mod Depth
use fedbox.Prelude.{
  ℕ, zero, suc, Bool, true, false, not, Option, none, some, List, [], ◌∷◌, map, Text, if◌then◌else◌,
}
use fedbox.Fault.{Fault, Result, ok, err, failed}
use fedbox.Vocab.{Vocab, Iri}
use fedbox.Control.Store.{Store}

module _ (V : Vocab) (S : Store V) where
  -- The state after an operation, with its error if it has one; collections within collections
  -- are followed as deep as the fuel goes.
  pub data Outcome : Type 0 where
    done : S.State → Option Fault → Outcome
    out_of_fuel : Outcome

  -- What is done with each object: its effect on the storage, and its error
  abbrev pub Operation : Type 0
  Operation = Iri → V.Item → S.State → S.State × Option Fault

  abbrev pub go_on : S.State × Option Fault → (S.State → Outcome) → Outcome
  go_on (s, none) rest = rest s
  go_on (s, some e) rest = done s (some e)

  -- A round of the loop. For a collection the function returns what the operation on its members
  -- returns, and makes no further round.
  operate_one :
      (List Iri → S.State → Outcome)
      → Operation
      → Iri
      → Iri
      → (S.State → Outcome)
      → S.State
      → Outcome
  operate_one inner fn to iri rest s = elim (S.load s iri []) [
    | err e ↦ done s (some e)
    | ok it ↦
        if V.is_item_collection it
        then elim (V.members it) [ err e ↦ done s (some e) | ok its ↦ inner (map V.link its) s ]
        else if not (V.is_object it)
        then done s (some failed)
        else go_on (fn to it s) rest
  ]

  operate_each : (List Iri → S.State → Outcome) → Operation → Iri → List Iri → S.State → Outcome
  unfolding operate_one
  operate_each inner fn to [] s = done s none
  operate_each inner fn to (iri ∷ rest) s =
      operate_one inner fn to iri (operate_each inner fn to rest) s

  checked : Iri → S.State → (S.State → Outcome) → Outcome
  checked to s body =
      if not (V.valid_collection_iri to)
      then done s (some failed)
      else elim (S.load s to []) [ err e ↦ done s (some e) | ok _ ↦ body s ]

  unfoldable pub operate_on_objects : ℕ → Operation → Iri → List Iri → S.State → Outcome
  unfolding operate_each checked
  operate_on_objects zero fn to from s = out_of_fuel
  operate_on_objects (suc fuel) fn to from s =
      let inner = operate_on_objects fuel fn to in checked to s (operate_each inner fn to from)

  -- `AddTo`, then `Delete`, each of which may fail
  abbrev then_delete : Iri → S.State × Option Fault → S.State × Option Fault
  then_delete iri (s, none) = S.delete s iri
  then_delete iri (s, some e) = (s, some e)

  abbrev move_one : Operation
  move_one col it s = then_delete (V.link it) (S.add_to s col it)

  -- An error of `AddTo` is logged only.
  abbrev pub copy_one : Operation
  copy_one col it s = ((S.add_to s col it).0, none)

  unfoldable pub move_objects : ℕ → Iri → List Iri → S.State → Outcome
  unfolding operate_on_objects
  move_objects fuel to from s =
      if not S.is_collection_store
      then done s (some failed)
      else operate_on_objects fuel move_one to from s

  unfoldable pub copy_objects : ℕ → Iri → List Iri → S.State → Outcome
  unfolding operate_on_objects
  copy_objects fuel to from s =
      if not S.is_collection_store
      then done s (some failed)
      else operate_on_objects fuel copy_one to from s
