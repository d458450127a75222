-- ===== src/Routes.antt =====
-- routes.go: the table of routes that the server gives to the package chi, and its options for the
-- package cors.
pub mod Laws
use fedbox.Prelude.{
  ℕ, Bool, true, false, not, ◌||◌, List, [], ◌∷◌, ◌++◌, Text, codes, if◌then◌else◌,
}
use fedbox.Env.{is_dev, is_prod}
use fedbox.Config.Options.{Options}

pub data Method : Type 0 where
  get head post : Method

-- A segment of a pattern: a text, or a parameter in braces
pub data Segment : Type 0 where
  exactly parameter : Text → Segment

-- The handlers of this repository
pub data Handler : Type 0 where
  handle_item handle_collection handle_activity proxy_url serve_fav_icon : Handler

-- `Method` of a router; `dumped` says whether `RequestToDiskMw` stands before the handler.
pub record Route : Type 0 where
  pub method : Method
  pub pattern : List Segment
  pub handler : Handler
  pub dumped : Bool

abbrev plain : Method → List Segment → Handler → Route
plain m p h = record { method = m; pattern = p; handler = h; dumped = false }

-- The handler that is mounted at "/debug"
pub data DebugHandler : Type 0 where
  profiler not_found : DebugHandler

-- The options of the package cors
pub record Cors : Type 0 where
  pub allowed_origins : List Text
  pub allowed_methods : List Text
  pub allowed_headers : List Text
  pub allow_credentials : Bool
  -- `AllowOriginFunc`, of an origin
  pub allow_origin : Text → Bool
  -- in seconds
  pub max_age : ℕ
  pub debug : Bool

-- The middlewares, the first of which is the outermost one
pub data Middleware : Type 0 where
  log request_id : Middleware
  cors_handler : Cors → Middleware
  clean_request_path set_request_host out_of_order : Middleware

pub record Table : Type 0 where
  pub middlewares : List Middleware
  pub routes : List Route
  pub debug : DebugHandler

check_origin_for_blocked_actors : Text → Bool
check_origin_for_blocked_actors origin = true

cors_of : Options → Cors
unfolding is_prod check_origin_for_blocked_actors
cors_of conf = record {
  allowed_origins = codes "https://*" ∷ (if is_prod conf.env then [] else codes "http://*" ∷ []);
  allowed_methods = codes "GET" ∷ codes "POST" ∷ codes "OPTIONS" ∷ [];
  allowed_headers = codes "*" ∷ [];
  allow_credentials = true;
  allow_origin = check_origin_for_blocked_actors;
  max_age = 3600;
  debug = not (is_prod conf.env);
}

-- The patterns below those of a collection
abbrev item_of : List Segment → List Segment
item_of prefix = prefix ++ (parameter (codes "id") ∷ [])

abbrev collection_of : List Segment → List Segment
collection_of prefix = prefix ++ (parameter (codes "collection") ∷ [])

-- The group of a collection, with the routes that are nested in that of an item
group : Bool → List Segment → List Route → List Route
group dump prefix nested =
    plain get prefix handle_collection
    ∷ plain head prefix handle_collection
    ∷ plain get (item_of prefix) handle_item
    ∷ plain head (item_of prefix) handle_item
    ∷ (nested
        ++ (record { method = post; pattern = prefix; handler = handle_activity; dumped = dump }
            ∷ []))

-- `CollectionRoutes` below a prefix, where there is a path of the storage to dump requests to, or
-- there is none
unfoldable pub collection_routes : Bool → Bool → List Segment → List Route
unfolding group
collection_routes dump true prefix =
    group dump prefix (group dump (collection_of (item_of prefix)) [])
collection_routes dump false prefix = group dump prefix []

-- The handler of /debug, by the debug mode when the table is made
debug_mw : Options → Bool → DebugHandler
unfolding is_dev
debug_mw conf debug_mode = if is_dev conf.env || debug_mode then profiler else not_found

-- `Routes`
unfoldable pub routes : Options → Bool → Bool → Table
unfolding cors_of collection_routes debug_mw
routes conf debug_mode dump = record {
  middlewares =
      log
      ∷ request_id
      ∷ cors_handler (cors_of conf)
      ∷ clean_request_path
      ∷ set_request_host
      ∷ out_of_order
      ∷ [];
  routes =
      plain get [] handle_item
      ∷ plain head [] handle_item
      ∷ plain post (exactly (codes "proxyUrl") ∷ []) proxy_url
      ∷ (collection_routes dump true (collection_of [])
          ++ (plain get (exactly (codes "favicon.ico") ∷ []) serve_fav_icon ∷ []));
  debug = debug_mw conf debug_mode;
}
