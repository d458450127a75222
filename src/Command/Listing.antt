-- ===== src/Command/Listing.antt =====
-- `ListCmd`, `InfoCmd` and `ExportCmd` of cmd-activitypub.go, with `List` of base.go.
pub mod Laws
use fedbox.Prelude.{
  ℕ, Bool, true, false, not, Option, none, some, List, [], ◌∷◌, ◌++◌, map, Text, codes, ◌==◌,
  text_eq, if◌then◌else◌,
}
use fedbox.Fault.{Fault, Result, ok, err, failed, ◌>>=◌}
use fedbox.Vocab.{Vocab, Iri, CollectionPath}
use fedbox.Control.Types.{load_pub_types}
use fedbox.Control.Store.{Store}
use fedbox.Search.{Values, by_type, iri_with_filters}

-- What the commands call of other packages
pub record ListServices (V : Vocab) (S : Store V) : Type 1 where
  -- the checks of `FromIRI`, and of `HasType`
  pub from_iri : Iri → List S.Check
  pub has_type : List Text → S.Check
  pub with_query : Iri → Values → Option Iri
  -- the items that `OnItem` calls its function with
  pub on_item : V.Item → List V.Item
  -- the collection of all items of a kind, and `IRIf`
  pub kind_iri : CollectionPath → Iri → Iri
  pub objects : CollectionPath
  pub actors : CollectionPath
  pub activities : CollectionPath
  pub Url : Type 0
  pub parse_request_uri : Iri → Option Url
  pub host : Url → Text
  pub with_host : Url → Text → Url
  pub to_text : Url → Iri
  -- `Slice` by `ItemOrderTimestamp`, and `FlattenProperties`
  pub sort_by_time : List V.Item → List V.Item
  pub flatten : V.Item → V.Item

module _ (V : Vocab) (S : Store V) (L : ListServices V S) where
  unfoldable pub not_nil : List V.Item → List V.Item
  not_nil [] = []
  not_nil (it ∷ its) = let rest = not_nil its in if V.is_nil it then rest else it ∷ rest

  abbrev pub query_iri : List Text → Iri → Iri
  unfolding iri_with_filters
  query_iri types iri = iri_with_filters L.with_query iri (by_type types ∷ [])

  -- The loop over the IRIs, which ends at the first error
  unfoldable pub list_each : List Text → List V.Item → List Iri → S.State → Result (List V.Item)
  unfolding not_nil query_iri
  list_each types items [] s = ok items
  list_each types items (iri ∷ iris) s = do
    col ← S.load s (query_iri types iri) (L.from_iri iri ++ (L.has_type types ∷ []))
    list_each types (items ++ not_nil (L.on_item col)) iris s

  -- No types are no filter, and not all types.
  unfoldable pub type_filter : List Text → List Text
  unfolding load_pub_types
  type_filter [] = []
  type_filter (t ∷ ts) = load_pub_types V (t ∷ ts)

  unfoldable pub list_items : List Iri → List Text → S.State → Result (List V.Item)
  unfolding type_filter list_each
  list_items iris types s = list_each (type_filter types) [] iris s

  with_default_host : Text → L.Url → L.Url
  with_default_host base_url u = if L.host u == [] then L.with_host u base_url else u

  valid_paths : Text → List Iri → List Iri
  unfolding with_default_host
  valid_paths base_url [] = []
  valid_paths base_url (iri ∷ iris) =
      let rest = valid_paths base_url iris in
      elim (L.parse_request_uri iri) [
        | none ↦ rest
        | some u ↦ L.to_text (with_default_host base_url u) ∷ rest
      ]

  paths_for : Text → List Iri → List Iri
  unfolding valid_paths
  paths_for base_url [] =
      L.kind_iri L.objects base_url
      ∷ L.kind_iri L.actors base_url
      ∷ L.kind_iri L.activities base_url
      ∷ []
  paths_for base_url (iri ∷ iris) = valid_paths base_url (iri ∷ iris)

  -- `ListCmd.Run`, with the items it prints
  unfoldable pub list_cmd : Text → List Text → List Iri → S.State → Result (List V.Item)
  unfolding paths_for list_items
  list_cmd base_url types iris s = do
    found ← list_items (paths_for base_url iris) types s
    ok (L.sort_by_time found)

  dump_all : Iri → S.State → Result (List V.Item)
  dump_all iri s = do
    it ← S.load s iri []
    if V.is_collection it
        then elim (V.members it) [ err e ↦ ok [] | ok its ↦ ok its ]
        else ok (it ∷ [])

  dump_each : List Iri → S.State → Result (List V.Item)
  unfolding dump_all
  dump_each [] s = ok []
  dump_each (iri ∷ iris) s = do dump ← dump_all iri s; rest ← dump_each iris s; ok (dump ++ rest)

  flattened : List V.Item → Result (List V.Item)
  flattened [] = err failed
  flattened (it ∷ its) = ok (map L.flatten (L.sort_by_time (it ∷ its)))

  -- `ExportCmd.Run`, with the items it writes
  unfoldable pub export_items : Text → S.State → Result (List V.Item)
  unfolding dump_each flattened
  export_items base_url s = do
    all ←
        dump_each
          (L.kind_iri L.activities base_url
            ∷ L.kind_iri L.actors base_url
            ∷ L.kind_iri L.objects base_url
            ∷ [])
          s
    flattened all

  found_items : List Iri → S.State → List V.Item
  found_items [] s = []
  found_items (iri ∷ iris) s =
      let rest = found_items iris s in elim (S.load s iri []) [ err e ↦ rest | ok it ↦ it ∷ rest ]

  -- `InfoCmd.Run`, with the items it prints; what cannot be loaded is skipped.
  unfoldable pub info_cmd : List Iri → S.State → Result (List V.Item)
  unfolding found_items
  info_cmd [] s = err failed
  info_cmd (iri ∷ iris) s = ok (found_items (iri ∷ iris) s)
