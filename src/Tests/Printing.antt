-- ===== src/Tests/Printing.antt =====
-- The theorems on the table of routes and on printing, at small inputs.
use fedbox.Prelude.{◌≡◌, refl, true, false, none, some, [], ◌∷◌, ◌++◌, codes, text_eq}
use fedbox.Fault.{err, failed}
use fedbox.Go.Strings.{split}
use fedbox.Go.Strings.Laws.{contains-Lacks}
use fedbox.Routes.{post, routes}
use fedbox.Routes.Laws.{handlers, expected, handlers-routes}
use fedbox.Output.{
  Object, collection, iri, object, absent, Views, no_views, and_then, out_item, print_item,
}
use fedbox.Output.Laws.{texts_of, print_item_lines}
use fedbox.Tests.World.{options}

handlers-routes_example :
    handlers post (codes "proxyUrl" ∷ []) (routes options true false).routes
    ≡ expected post (codes "proxyUrl" ∷ [])
handlers-routes_example = handlers-routes options true false post (codes "proxyUrl" ∷ [])

abbrev note : Object
note = record {
  type_name = codes "Note";
  id = codes "https://x.org/objects/1";
  published = codes "01 Jan 2024 00:00:00";
  name = [];
  summary = [];
  content = [];
  converts = true;
}

abbrev named : Object
named = record note { name = (some (codes "en"), codes " A name\n") ∷ [] }

-- A text with a language is printed twice, trimmed.
printed_twice :
    (out_item (λ t. false) (λ t. false) (object named [] absent absent)).0
    ≡ codes
        "[Note] https://x.org/objects/1 // 01 Jan 2024 00:00:00\n\tName[en]: A name\n\tName: A name"
unfolding out_item
printed_twice = refl

abbrev listed : Views
listed = and_then (iri (codes "https://x.org/objects/2")) (
    and_then (object note [] absent absent)
      (and_then (object (record note { converts = false }) [] absent absent) no_views))

print_item_lines_example :
    let r =
      print_item (λ t. false) (λ t. false) (λ v. err failed) (collection listed) (codes "text") in
    (r.1 ≡ none) × (split r.0 b'\n' ≡ texts_of (λ t. false) (λ t. false) listed ++ ([] ∷ []))
unfolding out_item
print_item_lines_example =
    print_item_lines (λ t. false) (λ t. false) (λ v. err failed) listed (codes "text") refl
      (
        contains-Lacks b'\n'
            (out_item (λ t. false) (λ t. false) (iri (codes "https://x.org/objects/2"))).0 refl,
        (
          contains-Lacks b'\n' (out_item (λ t. false) (λ t. false) (object note [] absent absent)).0
              refl,
          (tt, tt),
        ),
      )
