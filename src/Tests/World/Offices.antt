-- ===== src/Tests/World/Offices.antt =====
-- What the commands on clients, the service and listings take as parameters, at a small storage.
use fedbox.Prelude.{
  refl, sym, ap, arith, true, none, some, List, [], ◌∷◌, ◌++◌, Text, codes, ◌==◌, text_eq,
  if◌then◌else◌, contains,
}
use fedbox.Fault.{ok, failed, err}
use fedbox.Vocab.{Iri}
use fedbox.Config.Options.{Options}
use fedbox.Command.Accounts.{AccountServices}
use fedbox.Keys.{KeyPair}
use fedbox.Control.Clients.{ClientServices}
use fedbox.Control.Service.{Founding, Base}
use fedbox.Control.Bootstrap.{Founders}
use fedbox.Control.Bootstrap.Laws.{Opens}
use fedbox.Command.Add.{Making}
use fedbox.Command.Listing.{ListServices}
use fedbox.Tests.World.Docs.{Doc, note, nothing, vocab, doc_link}
use fedbox.Tests.World.Servers.{any_doc, Entry, options}
use fedbox.Tests.World.Stores.{store}
use fedbox.Tests.World.Vaults.{crypto, vault, backing, adding, person}

abbrev pub base_url : Text
base_url = codes "https://x.org"

abbrev pub self : Doc
self = note base_url (codes "Service" ∷ []) [] (base_url ++ codes "/inbox")

-- A URL is a host and a path; every text that is not empty is the path of one.
abbrev pub client_services : ClientServices vocab
client_services = record {
  Url = Text × Text;
  parse_request_uri = λ t. if t == [] then none else some (codes "app.org", t);
  host = λ u. u.0;
  path = λ u. u.1;
  with_path = λ u p. (u.0, p);
  to_text = λ u. u.0 ++ u.1;
  iri_url = λ i. none;
  parsed = some;
  search_by_name = λ t. t;
  append = λ xs ys. xs ++ ys;
  application = λ name urls. person (codes "https://x.org/actors/app");
  marshal = λ t. [];
  authorize_token = ok (codes "code");
  access_tokens = ok (codes "access", codes "refresh");
  last_actor = λ d. ok (some d);
}

abbrev pub founding : Founding vocab
founding = record {
  to_actor = λ d. ok d;
  published = λ d. d;
  streams = λ d.
      note (codes "https://x.org/actors") [] [] []
      ∷ note (codes "https://x.org/objects") [] [] []
      ∷ [];
  stream_collection = λ d i. note i [] [] [];
  join = λ m e. e;
}

abbrev pub pair : KeyPair crypto
pair = record { private = some 5; public = some 5; key_type = codes "ED25519" }

abbrev pub no_service : Base crypto vocab vault backing adding founding
no_service = record { service = nothing; private_key = none; has_storage = true }

abbrev pub founders : Founders vocab vault
founders = record {
  directories = record {
    stat = λ s p. ok true;
    is_not_exist = λ e. true;
    mkdir_all = λ s p. (s, none);
  };
  bootstrap_storage = λ s fns. (s, none);
  new_storage = λ s fns. (s, none);
  clean_storage = λ s fns. (s, none);
  is_not_exist = λ e. true;
  self = λ url. note url (codes "Service" ∷ []) [] (url ++ codes "/inbox");
  trim_space = λ t. if t == [] then none else some t;
  random_text = codes "random";
}

abbrev pub with_url : Options
with_url = record options { base_url = base_url; storage_path = codes "/srv" }

abbrev pub making : Making vocab vault backing
making = record {
  actor = λ typ by tags name. person name;
  object = λ typ by name. note name (typ ∷ []) [] [];
  first_name = doc_link;
  all_objects = λ s base. [];
  append = λ xs x. xs ++ (x ∷ []);
  attributed_link = doc_link;
  load_actor = λ s i checks. ok self;
  person_type = codes "Person";
  note_type = codes "Note";
  is_valid_object = λ t. contains (codes "Note" ∷ codes "Article" ∷ []) t;
  is_known = λ t. true;
}

abbrev pub list_services : ListServices vocab store
list_services = record {
  from_iri = λ i. [];
  has_type = λ ts. any_doc;
  with_query = λ i q. none;
  on_item = λ d. d ∷ nothing ∷ [];
  kind_iri = λ c base. base ++ (codes "/" ++ c);
  objects = codes "objects";
  actors = codes "actors";
  activities = codes "activities";
  Url = Iri;
  parse_request_uri = λ i. some i;
  host = λ u. u;
  with_host = λ u h. u;
  to_text = λ u. u;
  sort_by_time = λ its. its;
  flatten = λ it. it;
}

abbrev pub poem : Doc
poem = note (codes "https://x.org/objects/1") (codes "Note" ∷ []) [] []

abbrev pub poems : List Entry
poems = record { at = codes "https://x.org/objects/1"; owner = []; doc = poem } ∷ []

abbrev pub alice : Doc
alice = person (codes "https://x.org/actors/1")

abbrev pub bob : Doc
bob = person (codes "https://x.org/actors/2")

abbrev pub account_services : AccountServices vocab vault
account_services = record {
  is_metadata_store = true;
  is_password_changer = true;
  load = λ s i. ok alice;
  password_set = λ s i pw. (s, none);
  all_persons = codes "https://x.org/actors";
  actors = λ d. d ∷ [];
  process_update = λ s d outbox. if doc_link d == doc_link bob then (s, some failed) else (s, none);
  outbox_iri = λ d. doc_link d ++ codes "/outbox";
  marshal = λ entries. ok [];
  unmarshal = λ t. err failed;
}

-- The storage opens and closes as is documented.
pub vault_opens : Opens vocab vault backing founders
vault_opens = record {
  close-is_open = λ s. refl;
  open-is_open = λ s s' h. ap (λ p. (p.0).opened) (sym h);
  open-fails = λ s s' e c h. ground arith;
  mkdir-is_open = λ s p. refl;
  bootstrap-is_open = λ s fns. refl;
  new-is_open = λ s fns. refl;
}
