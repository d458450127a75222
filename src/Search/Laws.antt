-- ===== src/Search/Laws.antt =====
-- The values of a query.
use fedbox.Prelude.{
  ◌≡◌, refl, sym, ap, ◌∙◌, inl, inr, false, List, [], ◌∷◌, ◌++◌, Text, ◌==◌, text_eq, if◌then◌else◌,
  Bool-cases, text_beq_iff, ==_refl, All,
}
use mathlib.Core.Path.{subst}
use mathlib.Core.List.{append_assoc, append-nil}
use fedbox.Search.{Values, append_values, merge_values, merged}

-- The values of a key, as `Get` finds them
unfoldable pub values_of : Text → Values → List Text
values_of k [] = []
values_of k ((k', vals) ∷ q) = let rest = values_of k q in if k' == k then vals else rest

-- The values that several queries have for a key, one query after the other
all_values : Text → List Values → List Text
all_values k [] = []
all_values k (q ∷ qs) = values_of k q ++ all_values k qs

append_values-same :
    (k : Text) (vals : List Text) (q : Values)
    → values_of k (append_values k vals q) ≡ values_of k q ++ vals
unfolding append_values values_of
append_values-same k vals [] = rw (==_refl k)
append_values-same k vals ((k', vals') ∷ q) = elim (Bool-cases (k' == k)) [
  | inl same ↦ rw (same, append_values, values_of, same)
  | inr other ↦ rw (other, append_values, values_of, other) (append_values-same k vals q)
]

append_values_other :
    (k k' : Text) (vals : List Text) (q : Values)
    → (k' == k) ≡ false
    → values_of k (append_values k' vals q) ≡ values_of k q
unfolding append_values values_of
append_values_other k k' vals [] apart = rw apart
append_values_other k k' vals ((k'', vals'') ∷ q) apart = elim (Bool-cases (k'' == k')) [
  | inl same ↦
      let there : (k'' == k) ≡ false = ap (λ i. i == k) ((text_beq_iff k'' k').0 same) ∙ apart in
      rw (same, append_values, values_of, there)
  | inr other ↦ elim (Bool-cases (k'' == k)) [
    | inl here ↦ rw (other, append_values, values_of, here)
    | inr there ↦
        rw (other, append_values, values_of, there) (append_values_other k k' vals q apart)
  ]
]

abbrev Without : Text → Values → Type 0
Without k = All (λ p. (p.0 == k) ≡ false)

-- A key stands once, as in a map.
unfoldable Keyed : Values → Type 0
Keyed [] = Unit
Keyed ((k, vals) ∷ q) = Without k q × Keyed q

values_of-Without : (k : Text) (q : Values) → Without k q → values_of k q ≡ []
unfolding values_of
values_of-Without k [] h = refl
values_of-Without k ((k', vals) ∷ q) h = rw h.0 (values_of-Without k q h.1)

merge_values_lem :
    (k : Text) (params q : Values)
    → Keyed params
    → values_of k (merge_values params q) ≡ values_of k q ++ values_of k params
unfolding merge_values values_of Keyed
merge_values_lem k [] q once = sym (append-nil (values_of k q))
merge_values_lem k ((k', vals) ∷ params) q once =
    merge_values_lem k params (append_values k' vals q) once.1 ∙ elim (Bool-cases (k' == k)) [
      | inl same ↦
          let e = (text_beq_iff k' k).0 same in
          let gone = values_of-Without k params (subst (λ i. Without i params) e once.0) in
          let here =
            ap (λ i. values_of k (append_values i vals q)) e ∙ append_values-same k vals q in
          rw same (
            ap (λ us. values_of k (append_values k' vals q) ++ us) gone
            ∙ append-nil (values_of k (append_values k' vals q))
            ∙ here)
      | inr other ↦
          rw other (ap (λ us. us ++ values_of k params) (append_values_other k k' vals q other))
    ]

merged_lem :
    (k : Text) (all : List Values) (q : Values)
    → All Keyed all
    → values_of k (merged all q) ≡ values_of k q ++ all_values k all
unfolding merged all_values
merged_lem k [] q once = sym (append-nil (values_of k q))
merged_lem k (params ∷ all) q once =
    merged_lem k all (merge_values params q) once.1
    ∙ ap (λ us. us ++ all_values k all) (merge_values_lem k params q once.0)
    ∙ append_assoc (values_of k q) (values_of k params) (all_values k all)

-- For queries in each of which a key stands once, the query of `IRIWithFilters` has for each key
-- the values of the queries for it, in their order.
values_of-merged :
    (k : Text) (all : List Values) → All Keyed all → values_of k (merged all []) ≡ all_values k all
unfolding values_of
values_of-merged k all once = merged_lem k all [] once
