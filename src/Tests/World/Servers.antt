-- ===== src/Tests/World/Servers.antt =====
-- Small versions of what the handlers, the server and the configuration take as parameters.
use fedbox.Prelude.{
  ℕ, ◌/◌, refl, Bool, true, false, none, some, List, [], ◌∷◌, ◌++◌, Text, codes, ◌==◌, text_eq,
  nat_eq, all, ==_refl, if◌then◌else◌,
}
use fedbox.Fault.{Result, ok, err, not_found}
use fedbox.Vocab.{Iri}
use fedbox.Http.{Request}
use fedbox.Handlers.Services.{Services}
use fedbox.Handlers.Item.Laws.{KeepsItems}
use fedbox.Config.Options.{Options, Environ, System, trace_level}
use fedbox.Config.Load.{ConfigFiles}
use fedbox.Lifecycle.{Backend}
use fedbox.Lifecycle.Invariant.{IsStorage}
use fedbox.Tests.World.Docs.{Doc, nothing, note, doc_link, vocab}

-- A check is for an actor, or a filter that lets everything pass.
pub data DocCheck : Type 0 where
  for_actor : Iri → DocCheck
  any_doc : DocCheck

-- An item with the actor that may see it
pub record Entry : Type 0 where
  pub at : Iri
  pub owner : Iri
  pub doc : Doc

abbrev passes : Iri → DocCheck → Bool
passes owner (for_actor a) = a == owner
passes owner any_doc = true

abbrev pub find : List Entry → Iri → List DocCheck → Result Doc
find [] i checks = err not_found
find (e ∷ es) i checks =
    if e.at == i
    then (if all (passes e.owner) checks then ok e.doc else err not_found)
    else find es i checks

abbrev Cached : Type 0
Cached = List (Iri × Doc)

abbrev find_cached : Cached → Iri → Doc
find_cached [] i = nothing
find_cached ((k, d) ∷ c) i = if k == i then d else find_cached c i

-- The actor is named by the form value of the request, and has an inbox.
abbrev actor : Request → Doc
actor r = note r.form_id (codes "Person" ∷ []) [] (r.form_id ++ codes "/inbox")

abbrev pub services : Services vocab
services = record {
  Storage = List Entry;
  Cache = Cached;
  Check = DocCheck;
  authorized = for_actor;
  from_values = λ q. any_doc ∷ [];
  is_unpaged = λ q. q == [];
  first_page = λ q. codes "maxItems=100";
  load = find;
  cached = find_cached;
  store = λ c k d. (k, d) ∷ c;
  delete_all = λ c. [];
  purge = λ c d i. [];
  verify = λ s v r. (actor r, none);
  process =
      λ async s it a i. (record { at = doc_link it; owner = doc_link a; doc = it } ∷ s, it, none);
  is_inbox = λ i. false;
  is_outbox = λ i. true;
  http_status = λ e. 500;
}

pub services_keeps : KeepsItems vocab services
services_keeps c k v = rw (==_refl k)

abbrev pub backend : Backend
backend = record {
  Storage = Bool;
  Cache = ℕ;
  open_storage = λ s. (true, none);
  close_storage = λ s. false;
  is_open = λ s. s;
  delete_all = λ c. 0;
  stop_server = none;
}

pub backend-IsStorage : IsStorage backend
backend-IsStorage = record { is_open-close = λ s. refl; is_open-open = λ s e. refl }

abbrev pub system : System
system = record {
  home = codes "/home/fedbox";
  cwd = codes "/srv";
  ssh_draw = λ n. n / 2;
  http_draw = λ n. n / 3;
  parse_duration = λ t. none;
  default_storage = codes "fs";
  pdq_sort = λ less ps. ps;
}

abbrev pub environ : Environ
environ k = if k == codes "FEDBOX_HTTPS" then codes "true" else []

abbrev pub config_files : ConfigFiles
config_files = record {
  open_root = λ p. some (λ f. f == codes ".env");
  overload = λ fs env. some env;
}

abbrev pub options : Options
options = record {
  app_name = codes "FedBOX";
  version = codes "HEAD";
  env = codes "dev";
  log_level = trace_level;
  log_output = [];
  time_out = 0;
  secure = false;
  cert_path = [];
  key_path = [];
  hostname = codes "social.example.com";
  listen_host = [];
  ssh_port = 0;
  http_port = 0;
  socket_path = codes "/run/fedbox.sock";
  base_url = [];
  storage = [];
  storage_path = [];
  storage_cache = false;
  request_cache = true;
  use_index = false;
  profile = false;
  mastodon_compatible = false;
  shutting_down = false;
}

-- A request for a path by an actor
abbrev pub get : Text → Text → Text → Request
get who path query = record {
  method = codes "GET";
  host = codes "x.org";
  tls = true;
  forwarded_host = [];
  content_type = [];
  path = path;
  raw_path = [];
  raw_query = query;
  user = none;
  body = ok [];
  form_id = who;
}
