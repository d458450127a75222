-- ===== src/Search.antt =====
-- activitypub/search.go: IRIs with a query.
pub mod Laws
use fedbox.Prelude.{
  Bool, true, false, Option, none, some, List, [], ◌∷◌, ◌++◌, Text, codes, ◌==◌, text_eq, contains,
  if◌then◌else◌,
}
use fedbox.Vocab.{Iri}

-- `url.Values`: the keys with their values; a key stands once
abbrev pub Values : Type 0
Values = List (Text × List Text)

abbrev pub by_type : List Text → Values
by_type types = (codes "type", types) ∷ []

abbrev pub by_name : List Text → Values
by_name names = (codes "name", names) ∷ []

abbrev pub by_url : List Text → Values
by_url urls = (codes "url", urls) ∷ []

-- `q[k] = append(q[k], vals...)`, which makes the key where it is missing
unfoldable pub append_values : Text → List Text → Values → Values
append_values k vals [] = (k, vals) ∷ []
append_values k vals ((k', vals') ∷ q) =
    let rest = append_values k vals q in
    if k' == k then (k', vals' ++ vals) ∷ q else (k', vals') ∷ rest

unfoldable pub merge_values : Values → Values → Values
unfolding append_values
merge_values [] q = q
merge_values ((k, vals) ∷ params) q = merge_values params (append_values k vals q)

unfoldable pub merged : List Values → Values → Values
unfolding merge_values
merged [] q = q
merged (params ∷ all) q = merged all (merge_values params q)

-- `IRIWithFilters`, for the text of an IRI's URL with a query
unfoldable pub iri_with_filters : (Iri → Values → Option Iri) → Iri → List Values → Iri
unfolding merged
iri_with_filters with_query iri params = elim (with_query iri (merged params [])) [
  | none ↦ iri
  | some i ↦ i
]

-- `SearchActorsIRI`, for the collection of all actors
unfoldable pub search_actors_iri :
    (Iri → Values → Option Iri) → (Iri → Iri) → Iri → List Values → Iri
unfolding iri_with_filters
search_actors_iri with_query actors base params = iri_with_filters with_query (actors base) params
