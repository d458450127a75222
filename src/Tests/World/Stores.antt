-- ===== src/Tests/World/Stores.antt =====
-- Small storages of objects and of accounts, for the commands and for access.
use fedbox.Prelude.{
  ℕ, true, none, some, List, [], ◌∷◌, ◌++◌, Text, codes, ◌==◌, text_eq, nat_eq, if◌then◌else◌,
}
use fedbox.Access.{Accounts, ed25519}
use fedbox.Fault.{◌>>=◌, unauthorized, Result, ok, err, not_found, failed}
use fedbox.Vocab.{Iri}
use fedbox.Control.Store.{Draft, Store}
use fedbox.Tests.World.Docs.{
  Doc, nothing, note, coll, no_docs, more, from_list, doc_link, doc_objects, vocab,
}
use fedbox.Tests.World.Servers.{DocCheck, Entry, find}

abbrev add_doc : List Entry → Iri → Doc → List Entry
add_doc s to d = elim (find s to []) [
  | err e ↦ s
  | ok col ↦
      record { at = to; owner = []; doc = coll to [] (from_list (doc_objects col ++ (d ∷ []))) } ∷ s
]

-- The one address that loads as a list whatever is stored
abbrev pub listing : Iri
listing = codes "https://x.org/everything"

abbrev load_or_list : List Entry → Iri → List DocCheck → Result Doc
load_or_list s i checks =
    if i == listing then ok (coll [] [] (more nothing no_docs)) else find s i checks

abbrev draft_doc : Draft → Doc
draft_doc d = note d.content (d.type_name ∷ []) (d.to ++ d.cc) []

abbrev pub remove_at : List Entry → Iri → List Entry
remove_at [] i = []
remove_at (e ∷ es) i = let rest = remove_at es i in if e.at == i then rest else e ∷ rest

abbrev entry : Doc → Entry
entry d = record { at = doc_link d; owner = []; doc = d }

abbrev pub store : Store vocab
store = record {
  State = List Entry;
  Check = DocCheck;
  load = load_or_list;
  save = λ s d. (entry d ∷ s, ok d);
  delete = λ s i. (remove_at s i, none);
  is_collection_store = true;
  add_to = λ s to d. (add_doc s to d, none);
  remove_client = λ s i. (s, none);
  process_client = λ s d self outbox. (entry (draft_doc d) ∷ s, none);
  process_item = λ s d a outbox. (entry d ∷ s, none);
  is_conflict = λ e. true;
  is_not_found = λ e. true;
}

-- A storage of accounts: the actors with the numbers of their keys and their passwords
pub record Account : Type 0 where
  pub name : Iri
  pub key : ℕ
  pub password : Text

abbrev account : List Account → Iri → Result Account
account [] i = err not_found
account (a ∷ rest) i = if a.name == i then ok a else account rest i

abbrev pub accounts : Accounts vocab
accounts = record {
  State = List Account;
  PublicKey = ℕ;
  load = λ people i. (account people i >>= (λ a. ok (note a.name (codes "Person" ∷ []) [] [])));
  load_key = λ people i. (account people i >>= (λ a. ok (ed25519 (some a.key))));
  password_check = λ people i pw. elim (account people i) [
    | err e ↦ some e
    | ok a ↦ if a.password == pw then none else some unauthorized
  ];
  to_actor = ok;
  public_key_pem = λ d. [];
  decode_pem = λ t. none;
  parse_pkix = λ t. none;
  parse_pkcs1 = λ t. err failed;
  equal_keys = λ a b. a == b;
  equals = λ a b. a == b;
}
