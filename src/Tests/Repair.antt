-- ===== src/Tests/Repair.antt =====
-- The theorems on the repair of collections, at a storage that lacks one.
use fedbox.Prelude.{
  ◌≡◌, refl, none, List, [], ◌∷◌, ◌++◌, codes, ◌==◌, text_eq, ==_refl, arith, Bool-cases, inl, inr,
}
use mathlib.Core.List.{Memᴰ}
use fedbox.Fault.{ok}
use fedbox.Vocab.{Iri}
use fedbox.Control.Repair.{Collections, try_create_actor_collections, fix_collections}
use fedbox.Control.Repair.Laws.{Loadable, Creates}
use fedbox.Control.Repair.Asking.{StreamMember, Asked, of_object, fix_collections-Loadable}
use fedbox.Tests.World.{Doc, nothing, note, coll, no_docs, more, vocab, store, Entry, listing}

abbrev collections : Collections vocab
collections = record {
  ordered_collection = λ i. coll i [] no_docs;
  to_ordered_collection = ok;
  with_total = λ d n. d;
  without_items = λ d. coll (vocab.link d) [] no_docs;
  count = λ d. 0;
  streams = λ d. ok (vocab.iri_item (codes "actors") ∷ vocab.iri_item (codes "moon") ∷ []);
  of_actor = codes "inbox" ∷ [];
  of_object = codes "likes" ∷ [];
  iri = λ c d. vocab.link d ++ (codes "/" ++ c);
  all_paths = codes "actors" ∷ [];
  split = λ i. i;
  stream_paths = codes "actors" ∷ [];
}

abbrev service : Doc
service = note (codes "https://x.org") (codes "Service" ∷ []) [] []

saved_kept :
    (s : List Entry) (i : Iri) (d : Doc)
    → Loadable vocab store s i
    → Loadable vocab store (store.save s d).0 i
saved_kept s i d (it, h) = elim (Bool-cases (i == listing)) [
  | inl all ↦ (it, ground arith)
  | inr other ↦ elim (Bool-cases (vocab.link d == i)) [
    | inl same ↦ (d, ground arith)
    | inr apart ↦ (it, ground arith)
  ]
]

saved_found :
    (s : List Entry) (i : Iri)
    → Loadable vocab store (store.save s (collections.ordered_collection i)).0 i
saved_found s i = elim (Bool-cases (i == listing)) [
  | inl all ↦ (coll [] [] (more nothing no_docs), ground arith)
  | inr other ↦ (coll i [] no_docs, ground (arith, ==_refl i))
]

creates : Creates vocab store collections
creates = record { missing = λ s i e h. refl; created = saved_found; kept = saved_kept }

abbrev streams : List Doc
streams = vocab.iri_item (codes "actors") ∷ vocab.iri_item (codes "moon") ∷ []

-- One note is in the stream of actors.
abbrev verse : Doc
verse = note (codes "https://x.org/objects/1") (codes "Note" ∷ []) [] []

abbrev held : Doc
held = coll (codes "https://x.org/actors") [] (more verse no_docs)

abbrev holding : List Entry
holding = record { at = codes "https://x.org/actors"; owner = []; doc = held } ∷ []

verse-StreamMember :
    StreamMember vocab store collections service streams
      (try_create_actor_collections vocab store collections service holding).0
      verse
unfolding try_create_actor_collections
verse-StreamMember = record {
  stream = vocab.iri_item (codes "actors");
  streamed = Memᴰ.head refl;
  holds_objects = refl;
  items = held;
  loaded = refl;
  its = verse ∷ [];
  members = refl;
  member = Memᴰ.head refl;
}

-- The likes of the note are asked for.
likes-Asked :
    Asked vocab store collections service streams
      (try_create_actor_collections vocab store collections service holding).0
      (codes "https://x.org/objects/1/likes")
likes-Asked =
    of_object verse (codes "likes") verse-StreamMember refl refl (Memᴰ.head refl)
      (λ h. ground arith)

fix_collections-Loadable_example :
    ((fix_collections vocab store collections service holding).1 ≡ none)
    × Loadable vocab store
        (fix_collections vocab store collections service holding).0
        (codes "https://x.org/objects/1/likes")
fix_collections-Loadable_example =
    fix_collections-Loadable vocab store collections creates service holding streams
      (codes "https://x.org/objects/1/likes") refl refl likes-Asked
