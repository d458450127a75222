-- ===== src/Ids/Stable/Laws.antt =====
-- How the counter numbers items.
use fedbox.Prelude.{ℕ, ◌+◌, ◌≡◌, refl, ◌⊎◌, inl, inr, Option, none, some, ◌++◌, codes, Bool-cases}
use fedbox.Go.Decimal.{append_uint}
use fedbox.Fault.{Fault}
use fedbox.Vocab.{Vocab, Iri}
use fedbox.Ids.Stable.{
  Labels, Numbered, numbered, stable_id, collection_base, stable_base, type_label,
}

module _ (V : Vocab) (N : Labels V) where
  -- Nothing is changed, or the item has the next number behind its label, below a base.
  abbrev Counted : ℕ → V.Item → Iri → Numbered V N → Type 0
  Counted cnt it base (cnt', it', id, e) =
      ((cnt' ≡ cnt) × (it' ≡ it))
      ⊎ ((cnt' ≡ cnt + 1)
          × (it'
              ≡ N.with_id it
                  (N.add_path base (type_label V N it ++ (codes "-" ++ append_uint (cnt + 1)))))
          × (e ≡ none))

  numbered-Counted :
      (cnt : ℕ) (it : V.Item) (base : Iri) (e : Option Fault)
      → Counted cnt it base (numbered V N cnt it base e)
  unfolding numbered
  numbered-Counted cnt it base none = inr (refl, refl, refl)
  numbered-Counted cnt it base (some e) = inl (refl, refl)

  -- The generator leaves the counter and the item alone, or it counts up by one and gives the item
  -- this number, without an error.
  stable_id-Counted :
      (cnt : ℕ) (it : V.Item) (part_of : Iri) (by : V.Item)
      → Counted cnt it
          (collection_base V N it (stable_base V N it part_of by))
          (stable_id V N cnt it part_of by)
  unfolding stable_id
  stable_id-Counted cnt it part_of by =
      let base = collection_base V N it (stable_base V N it part_of by) in
      elim (Bool-cases (N.is_link it)) [
        | inl link ↦ rw (link, stable_id) (numbered-Counted cnt it base (N.on_link it))
        | inr other ↦ elim (Bool-cases (V.is_object it)) [
          | inl object ↦
              rw (other, object, stable_id) (numbered-Counted cnt it base (N.on_object it))
          | inr nothing ↦ rw (other, nothing, stable_id) (inl (refl, refl))
        ]
      ]
