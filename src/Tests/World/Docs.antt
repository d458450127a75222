-- ===== src/Tests/World/Docs.antt =====
-- A small version of the items of the package go-ap/activitypub.
use fedbox.Prelude.{
  ◌≡◌, refl, Bool, true, false, not, none, List, [], ◌∷◌, map, Text, codes, ◌==◌, text_eq, nat_eq,
  contains, any, arith, if◌then◌else◌,
}
use fedbox.Fault.{Result, ok, err, failed}
use fedbox.Vocab.{Vocab, Iri, CollectionPath, CleansRecipients}

mutual
  -- A note has an id, type names, hidden recipients and an inbox.
  pub data Doc : Type 0 where
    nothing : Doc
    note : Iri → List Text → List Iri → Iri → Doc
    coll : Iri → List Iri → Docs → Doc

  pub data Docs : Type 0 where
    no_docs : Docs
    more : Doc → Docs → Docs

abbrev to_list : Docs → List Doc
to_list no_docs = []
to_list (more d ds) = d ∷ to_list ds

abbrev pub from_list : List Doc → Docs
from_list [] = no_docs
from_list (d ∷ ds) = more d (from_list ds)

to_list-from_list : (ds : List Doc) → to_list (from_list ds) ≡ ds
to_list-from_list [] = refl
to_list-from_list (d ∷ ds) = ground (arith, to_list-from_list ds)

abbrev pub doc_link : Doc → Iri
doc_link nothing = []
doc_link (note i ts h inbox) = i
doc_link (coll i h ds) = i

abbrev doc_types : Doc → List Text
doc_types nothing = []
doc_types (note i ts h inbox) = ts
doc_types (coll i h ds) = codes "OrderedCollection" ∷ []

abbrev is_nothing : Doc → Bool
is_nothing nothing = true
is_nothing (note i ts h inbox) = false
is_nothing (coll i h ds) = false

abbrev is_coll : Doc → Bool
is_coll (coll i h ds) = true
is_coll nothing = false
is_coll (note i ts h inbox) = false

-- A collection without an id stands for a bare list of items.
abbrev is_list : Doc → Bool
is_list (coll i h ds) = i == []
is_list nothing = false
is_list (note i ts h inbox) = false

abbrev doc_members : Doc → Result (List Doc)
doc_members (coll i h ds) = ok (to_list ds)
doc_members nothing = err failed
doc_members (note i ts h inbox) = err failed

abbrev doc_map : (Doc → Doc) → Doc → Doc
doc_map f (coll i h ds) = coll i h (from_list (map f (to_list ds)))
doc_map f nothing = nothing
doc_map f (note i ts h inbox) = note i ts h inbox

abbrev doc_clean : Doc → Doc
doc_clean nothing = nothing
doc_clean (note i ts h inbox) = note i ts [] inbox
doc_clean (coll i h ds) = coll i [] ds

abbrev doc_hidden : Doc → List Iri
doc_hidden nothing = []
doc_hidden (note i ts h inbox) = h
doc_hidden (coll i h ds) = h

abbrev doc_of : CollectionPath → Doc → Doc
doc_of col (note i ts h inbox) = if inbox == [] then nothing else note inbox [] [] []
doc_of col nothing = nothing
doc_of col (coll i h ds) = nothing

abbrev pub doc_objects : Doc → List Doc
doc_objects nothing = []
doc_objects (note i ts h inbox) = note i ts h inbox ∷ []
doc_objects (coll i h ds) = to_list ds

abbrev public : Iri
public = codes "as:Public"

abbrev pub vocab : Vocab
vocab = record {
  Item = Doc;
  is_nil = is_nothing;
  nil = nothing;
  link = doc_link;
  types = doc_types;
  matches = λ ts us. any (contains us) ts;
  delete_type = codes "Delete";
  tombstone_type = codes "Tombstone";
  object_type = codes "Object";
  actor_type = codes "Actor";
  activity_type = codes "Activity";
  activity_types = codes "Create" ∷ codes "Delete" ∷ [];
  intransitive_types = codes "Question" ∷ [];
  actor_types = codes "Person" ∷ codes "Service" ∷ [];
  object_types = codes "Note" ∷ [];
  is_object = λ d. not (is_nothing d);
  is_activity = λ d. contains (doc_types d) (codes "Create");
  is_collection = is_coll;
  is_item_collection = is_list;
  members = doc_members;
  as_items = doc_objects;
  map_members = doc_map;
  clean_recipients = doc_clean;
  hidden = doc_hidden;
  to = λ d. doc_link d ∷ [];
  bto = doc_hidden;
  cc = λ d. [];
  bcc = λ d. [];
  attributed_to = λ d. none;
  actor_of = λ d. d;
  to_actor = λ d. d;
  objects = doc_objects;
  valid_collection_iri = λ i. not (i == []);
  iri_item = λ i. note i [] [] [];
  of = doc_of;
  last_collection = λ i. codes "inbox";
  iri_equal = λ a b. a == b;
  public_ns = public;
  unmarshal = λ t. if t == [] then err failed else ok (note t (codes "Create" ∷ []) [] []);
  unknown = [];
  inbox = codes "inbox";
  outbox = codes "outbox";
  content_type_json_activity = codes "application/activity+json";
  content_type_json_ld = codes "application/ld+json";
  valid_collections = codes "inbox" ∷ codes "outbox" ∷ codes "actors" ∷ [];
  valid_collection = λ c. contains (codes "inbox" ∷ codes "outbox" ∷ codes "actors" ∷ []) c;
}

vocab_hidden : (d : Doc) → doc_hidden (doc_clean d) ≡ []
vocab_hidden nothing = refl
vocab_hidden (note i ts h inbox) = refl
vocab_hidden (coll i h ds) = refl

vocab_members : (d : Doc) → doc_members (doc_clean d) ≡ doc_members d
vocab_members nothing = refl
vocab_members (note i ts h inbox) = refl
vocab_members (coll i h ds) = refl

vocab_hidden_map : (f : Doc → Doc) (d : Doc) → doc_hidden (doc_map f d) ≡ doc_hidden d
vocab_hidden_map f nothing = refl
vocab_hidden_map f (note i ts h inbox) = refl
vocab_hidden_map f (coll i h ds) = refl

vocab_members_map :
    (f : Doc → Doc) (d : Doc) (xs : List Doc)
    → doc_members d ≡ ok xs
    → doc_members (doc_map f d) ≡ ok (map f xs)
vocab_members_map f nothing xs e = cc
vocab_members_map f (note i ts h inbox) xs e = cc
vocab_members_map f (coll i h ds) xs e = ground (arith, to_list-from_list (map f (to_list ds)))

pub vocab_cleans : CleansRecipients vocab
vocab_cleans = record {
  hidden-clean = vocab_hidden;
  members-clean = vocab_members;
  hidden-map = vocab_hidden_map;
  members-map = vocab_members_map;
}
