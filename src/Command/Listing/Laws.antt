-- ===== src/Command/Listing/Laws.antt =====
-- What is listed.
use fedbox.Prelude.{
  ◌≡◌, sym, ap, ◌∙◌, ◌↔◌, inl, inr, true, false, refl, Bool-cases, List, [], ◌∷◌, ◌++◌, Text, arith,
}
use mathlib.Core.Path.{subst}
use mathlib.Core.List.{append_assoc, append-nil}
use fedbox.Fault.{ok, Result-cases}
use fedbox.Vocab.{Vocab, Iri}
use fedbox.Control.Store.{Store}
use fedbox.Control.Types.{load_pub_types}
use fedbox.Search.{by_type, iri_with_filters}
use fedbox.Command.Listing.{ListServices, query_iri, not_nil, list_each, list_items, type_filter}

module _ (V : Vocab) (S : Store V) (L : ListServices V S) where
  -- The items of a list that are not nil, in their order
  pub data Kept : List V.Item → List V.Item → Type 0 where
    nothing : Kept [] []
    kept :
        {it : V.Item} {its rest : List V.Item}
        → V.is_nil it ≡ false
        → Kept its rest
        → Kept (it ∷ its) (it ∷ rest)
    dropped :
        {it : V.Item} {its rest : List V.Item}
        → V.is_nil it ≡ true
        → Kept its rest
        → Kept (it ∷ its) rest

  not_nil-Kept : (its : List V.Item) → Kept its (not_nil V S L its)
  unfolding not_nil
  not_nil-Kept [] = nothing
  not_nil-Kept (it ∷ its) = elim (Bool-cases (V.is_nil it)) [
    | inl nil ↦ rw nil (dropped nil (not_nil-Kept its))
    | inr there ↦ rw there (kept there (not_nil-Kept its))
  ]

  Kept-not_nil : (its rest : List V.Item) → Kept its rest → not_nil V S L its ≡ rest
  unfolding not_nil
  Kept-not_nil _ _ nothing = refl
  Kept-not_nil _ _ (kept {it} {its} {rest} there keeps) = rw (there, Kept-not_nil its rest keeps)
  Kept-not_nil _ _ (dropped {it} {its} {rest} nil keeps) = rw (nil, Kept-not_nil its rest keeps)

  -- The types that are looked for: those that the given ones name, or none where none is given
  unfoldable pub filter_types : List Text → List Text
  filter_types [] = []
  filter_types (t ∷ ts) = load_pub_types V (t ∷ ts)

  type_filter-filter_types : (types : List Text) → type_filter V S L types ≡ filter_types types
  unfolding type_filter filter_types
  type_filter-filter_types [] = refl
  type_filter-filter_types (t ∷ ts) = refl

  -- What a list of IRIs and a result of listing them have to do with each other: every IRI is
  -- loaded with its filters, and what is found is not nil and comes in their order.
  pub data Listed (types : List Text) (s : S.State) : List Iri → List V.Item → Type 0 where
    no_iris : Listed types s [] []
    one_iri :
        {iri : Iri} {iris : List Iri} {items : List V.Item} (col : V.Item)
        (some_items : List V.Item)
        → S.load s
            (iri_with_filters L.with_query iri (by_type types ∷ []))
            (L.from_iri iri ++ (L.has_type types ∷ []))
          ≡ ok col
        → Kept (L.on_item col) some_items
        → Listed types s iris items
        → Listed types s (iri ∷ iris) (some_items ++ items)

  list_each-Listed :
      (types : List Text) (acc : List V.Item) (iris : List Iri) (s : S.State) (all : List V.Item)
      → list_each V S L types acc iris s ≡ ok all
      → (items : List V.Item) × (all ≡ acc ++ items) × Listed types s iris items
  unfolding list_each
  list_each-Listed types acc [] s all h =
      let same : acc ≡ all = ground arith in ([], sym same ∙ sym (append-nil acc), no_iris)
  list_each-Listed types acc (iri ∷ iris) s all h =
      elim (Result-cases
        (S.load s (query_iri V S L types iri) (L.from_iri iri ++ (L.has_type types ∷ [])))) [
          | inl (e, lost) ↦ ground arith
          | inr (col, found) ↦
              let (items, is, rest) =
                list_each-Listed types (acc ++ not_nil V S L (L.on_item col)) iris s all
                  (ground arith) in
              (
                not_nil V S L (L.on_item col) ++ items,
                is ∙ append_assoc acc (not_nil V S L (L.on_item col)) items,
                one_iri col (not_nil V S L (L.on_item col)) found (not_nil-Kept (L.on_item col))
                    rest,
              )
        ]

  Listed-list_each :
      (types : List Text) (s : S.State) (acc : List V.Item) (iris : List Iri) (items : List V.Item)
      → Listed types s iris items
      → list_each V S L types acc iris s ≡ ok (acc ++ items)
  unfolding list_each
  Listed-list_each types s acc _ _ no_iris = ap ok (sym (append-nil acc))
  Listed-list_each types s acc _ _ (one_iri {iri} {iris} {items} col some_items found keeps rest) =
      rw (found, Kept-not_nil (L.on_item col) some_items keeps)
        (Listed-list_each types s (acc ++ some_items) iris items rest
          ∙ ap ok (append_assoc acc some_items items))

  -- Listing some IRIs gives some items, without an error, exactly when each IRI could be loaded with
  -- the filters of the types, none if no types are given, and the items are those found at each that
  -- are not nil, in the order of the IRIs.
  pub list_items-Listed :
      (iris : List Iri) (types : List Text) (s : S.State) (items : List V.Item)
      → (list_items V S L iris types s ≡ ok items) ↔ Listed (filter_types types) s iris items
  unfolding list_items
  list_items-Listed iris types s items =
      subst
        (λ ts.
          (list_each V S L (type_filter V S L types) [] iris s ≡ ok items) ↔ Listed ts s iris items)
        (type_filter-filter_types types)
        (
          λ h.
              let (found, is, listed) =
                list_each-Listed (type_filter V S L types) [] iris s items h in
              subst (Listed (type_filter V S L types) s iris) (sym is) listed,
          λ listed. Listed-list_each (type_filter V S L types) s [] iris items listed,
        )
