-- ===== src/Routes/Laws.antt =====
-- The handlers whose patterns fit a path: items and collections alternate, four segments deep.
use fedbox.Prelude.{
  ◌≡◌, refl, Bool, true, false, ◌&&◌, List, [], ◌∷◌, ◌++◌, Text, codes, ◌==◌, text_eq, arith,
  if◌then◌else◌,
}
use fedbox.Config.Options.{Options}
use fedbox.Routes.{
  Method, get, head, post, Segment, exactly, parameter, Handler, handle_item, handle_collection,
  handle_activity, proxy_url, serve_fav_icon, Route, collection_routes, routes,
}

-- A parameter stands for any one segment of a path.
fits : List Segment → List Text → Bool
fits [] [] = true
fits (exactly t ∷ ps) (x ∷ xs) = t == x && fits ps xs
fits (parameter n ∷ ps) (x ∷ xs) = fits ps xs
fits _ _ = false

abbrev same_method : Method → Method → Bool
same_method get get = true
same_method head head = true
same_method post post = true
same_method _ _ = false

-- The handlers of the routes for a method and the segments of a path, in the order of the table
pub handlers : Method → List Text → List Route → List Handler
unfolding fits
handlers m path [] = []
handlers m path (r ∷ rs) =
    let rest = handlers m path rs in
    if same_method m r.method && fits r.pattern path then r.handler ∷ rest else rest

abbrev only : Bool → Handler → List Handler
only b h = if b then h ∷ [] else []

-- What is asked of a path: of none an item, of a collection its page, its item, the item's
-- collection and again its item; only collections are posted to.
abbrev pub expected : Method → List Text → List Handler
expected post [] = []
expected post (c ∷ []) = only (codes "proxyUrl" == c) proxy_url ++ (handle_activity ∷ [])
expected post (c ∷ i ∷ d ∷ []) = handle_activity ∷ []
expected post _ = []
expected get (c ∷ []) = handle_collection ∷ only (codes "favicon.ico" == c) serve_fav_icon
expected m [] = handle_item ∷ []
expected m (c ∷ []) = handle_collection ∷ []
expected m (c ∷ i ∷ []) = handle_item ∷ []
expected m (c ∷ i ∷ d ∷ []) = handle_collection ∷ []
expected m (c ∷ i ∷ d ∷ j ∷ []) = handle_item ∷ []
expected m _ = []

-- Besides what is mounted at /debug, the routes whose method and pattern fit a request have, in the
-- order of the table, the handlers that are expected of the number of segments of its path: of none
-- an item, of one a collection, of two an item, of three a collection, of four an item, of more none,
-- where only collections are posted to; and of one segment also the proxy or the favicon.
pub handlers-routes :
    (conf : Options) (debug_mode dump : Bool) (m : Method) (path : List Text)
    → handlers m path (routes conf debug_mode dump).routes ≡ expected m path
unfolding handlers routes collection_routes
handlers-routes conf debug_mode dump get [] = refl
handlers-routes conf debug_mode dump get (c ∷ []) = ground arith
handlers-routes conf debug_mode dump get (c ∷ i ∷ []) = ground arith
handlers-routes conf debug_mode dump get (c ∷ i ∷ d ∷ []) = ground arith
handlers-routes conf debug_mode dump get (c ∷ i ∷ d ∷ j ∷ []) = ground arith
handlers-routes conf debug_mode dump get (c ∷ i ∷ d ∷ j ∷ k ∷ path) = ground arith
handlers-routes conf debug_mode dump head [] = refl
handlers-routes conf debug_mode dump head (c ∷ []) = ground arith
handlers-routes conf debug_mode dump head (c ∷ i ∷ []) = ground arith
handlers-routes conf debug_mode dump head (c ∷ i ∷ d ∷ []) = ground arith
handlers-routes conf debug_mode dump head (c ∷ i ∷ d ∷ j ∷ []) = ground arith
handlers-routes conf debug_mode dump head (c ∷ i ∷ d ∷ j ∷ k ∷ path) = ground arith
handlers-routes conf debug_mode dump post [] = refl
handlers-routes conf debug_mode dump post (c ∷ []) = ground arith
handlers-routes conf debug_mode dump post (c ∷ i ∷ []) = ground arith
handlers-routes conf debug_mode dump post (c ∷ i ∷ d ∷ []) = ground arith
handlers-routes conf debug_mode dump post (c ∷ i ∷ d ∷ j ∷ []) = ground arith
handlers-routes conf debug_mode dump post (c ∷ i ∷ d ∷ j ∷ k ∷ path) = ground arith
