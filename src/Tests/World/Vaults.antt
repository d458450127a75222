-- ===== src/Tests/World/Vaults.antt =====
-- A small storage of objects, metadata, passwords and clients, with keys that are numbers.
use fedbox.Prelude.{
  ℕ, refl, Bool, true, false, Option, none, some, List, [], ◌∷◌, ◌++◌, Text, codes, ◌==◌, text_eq,
  nat_eq, if◌then◌else◌,
}
use fedbox.Fault.{Result, ok, err, not_found, failed}
use fedbox.Vocab.{Iri}
use fedbox.Keys.{Crypto, raw_ed25519, Metadata, MetadataStore}
use fedbox.Keys.Laws.{Remembers}
use fedbox.Control.Backing.{OAuthClient, Backing, store_of}
use fedbox.Control.Addition.{Adding}
use fedbox.Tests.World.Docs.{Doc, nothing, note, coll, doc_link, vocab}
use fedbox.Tests.World.Servers.{DocCheck, Entry, find}

abbrev marshal_some : Option ℕ → Result Text
marshal_some none = err failed
marshal_some (some k) = ok (k ∷ [])

abbrev pub crypto : Crypto
crypto = record {
  PrivateKey = ℕ;
  PublicKey = ℕ;
  public = λ k. k;
  parse_raw_private_key = λ t. if t == [] then err failed else ok (raw_ed25519 7);
  generate_ed25519 = ok (5, 5);
  generate_rsa = ok 6;
  generate_ecdsa = err failed;
  marshal_pkix = marshal_some;
  marshal_pkcs8 = marshal_some;
  encode_pem = λ typ t. typ ++ t;
}

pub record Vault : Type 0 where
  pub docs : List Entry
  pub metadata : List (Iri × Metadata)
  pub passwords : List (Iri × Text)
  pub clients : List OAuthClient
  pub tokens : List Text
  pub opened : Bool

abbrev pub empty_vault : Vault
empty_vault = record {
  docs = [];
  metadata = [];
  passwords = [];
  clients = [];
  tokens = [];
  opened = false;
}

abbrev find_metadata : List (Iri × Metadata) → Iri → Result Metadata
find_metadata [] j = err not_found
find_metadata ((i, m) ∷ ms) j = let rest = find_metadata ms j in if j == i then ok m else rest

abbrev put : Vault → Doc → Vault
put s d = record s { docs = record { at = doc_link d; owner = []; doc = d } ∷ s.docs }

abbrev single : Doc → Result Doc
single nothing = err failed
single (note i ts h inbox) = ok (note i ts h inbox)
single (coll i h ds) = err failed

abbrev pub vault : MetadataStore vocab
vault = record {
  State = Vault;
  load_metadata = λ s i. find_metadata s.metadata i;
  save_metadata = λ s i m. (record s { metadata = (i, m) ∷ s.metadata }, none);
  is_full = true;
  save = λ s d. (put s d, none);
  actor_id = doc_link;
  with_public_key = λ d key owner pem. d;
  on_actor = single;
  person_type = codes "Person";
}

pub vault_remembers : Remembers crypto vocab vault
vault_remembers = record {
  saves = λ s i m. refl;
  load-save = λ s i j m. refl;
  load-save_actor = λ s it j. refl;
}

abbrev find_client : List OAuthClient → Text → Result OAuthClient
find_client [] id = err not_found
find_client (c ∷ cs) id = let rest = find_client cs id in if c.id == id then ok c else rest

abbrev pub backing : Backing vocab vault
backing = record {
  Check = DocCheck;
  load = λ s i checks. find s.docs i checks;
  save = λ s d. (put s d, ok d);
  delete = λ s i. (s, none);
  is_collection_store = true;
  add_to = λ s to d. (s, none);
  remove_client = λ s i. (s, none);
  process_client = λ s d self outbox. (s, none);
  process_item = λ s d a outbox. (put s d, none);
  is_conflict = λ e. true;
  is_not_found = λ e. true;
  open_storage = λ s. (record s { opened = true }, none);
  close_storage = λ s. record s { opened = false };
  is_open = λ s. s.opened;
  password_set = λ s i pw. (record s { passwords = (i, pw) ∷ s.passwords }, none);
  Client = OAuthClient;
  redirect_of = λ c. c.redirect_uri;
  get_client = λ s id. find_client s.clients id;
  save_client = λ s c. (record s { clients = c ∷ s.clients }, none);
  save_authorize = λ s a. (record s { tokens = a.code ∷ s.tokens }, none);
  save_access = λ s a. (record s { tokens = a.access_token ∷ s.tokens }, none);
}

-- Everything that is processed is saved, under the id it has.
abbrev pub adding : Adding vocab (store_of vocab vault backing)
adding = record {
  process = λ s w by outbox. (put s w.object, w.object, none);
  append = λ xs ys. xs ++ ys;
  followers = codes "followers";
  create_type = codes "Create";
  id = doc_link;
  service_iri = λ t. t;
  on_actor = single;
  is_anonymous = λ i. i == vocab.public_ns;
  activities = codes "activities";
  actors = codes "actors";
  all_objects = codes "objects";
  iri = λ c base. base ++ (codes "/" ++ c);
  generate_id = λ it part_of by. ok (part_of ++ codes "/1");
}

abbrev pub person : Text → Doc
person name = note name (codes "Person" ∷ []) [] (name ++ codes "/inbox")
