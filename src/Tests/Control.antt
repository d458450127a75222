-- ===== src/Tests/Control.antt =====
-- The theorems on what the commands do with objects, at a small storage.
use fedbox.Prelude.{
  ℕ, suc, ◌+◌, ◌<◌, ◌≡◌, refl, ap, ◌∙◌, Bool-cases, All, Option, ◌==◌, if◌then◌else◌, inl, inr,
  true, none, List, [], ◌∷◌, codes, arith, text_eq,
}
use fedbox.Fault.{Fault, ok}
use fedbox.Vocab.{Iri}
use mathlib.Core.Path.{subst}
use fedbox.Control.Store.{Store}
use fedbox.Control.Objects.{done, operate_on_objects, copy_one}
use fedbox.Control.Objects.Depth.{Ranked, operate_on_objects_ends}
use fedbox.Control.Deletion.{accepted, delete_objects}
use fedbox.Control.Deletion.Laws.{loaded_objects, removable_links, delete_objects_last}
use fedbox.Tests.World.{Doc, note, coll, no_docs, more, vocab, store, Entry, listing}

abbrev target : Iri
target = codes "https://x.org/actors/1/outbox"

abbrev letter : Iri
letter = codes "https://x.org/objects/1"

abbrev gone : Iri
gone = codes "https://x.org/objects/2"

abbrev letter_doc : Doc
letter_doc = note letter (codes "Note" ∷ []) (codes "https://x.org/actors/2" ∷ []) []

abbrev gone_doc : Doc
gone_doc = note gone (codes "Tombstone" ∷ []) [] []

abbrev target_doc : Doc
target_doc = coll target [] no_docs

abbrev self : Doc
self = note (codes "https://x.org") (codes "Service" ∷ []) [] (codes "https://x.org/inbox")

abbrev state : List Entry
state =
    record { at = target; owner = []; doc = target_doc }
    ∷ record { at = letter; owner = []; doc = letter_doc }
    ∷ record { at = gone; owner = []; doc = gone_doc }
    ∷ []

delete_objects_last_example :
    delete_objects vocab store (λ t. true) self (codes "spam") [] (gone ∷ letter ∷ []) state
    ≡ store.process_client state
        (record {
          type_name = codes "Delete";
          to = letter ∷ [];
          bto = codes "https://x.org/actors/2" ∷ [];
          cc = codes "https://x.org" ∷ [];
          bcc = [];
          in_reply_to = [];
          content = codes "spam";
          objects = letter ∷ [];
        })
        self
        (codes "https://x.org/inbox")
unfolding removable_links loaded_objects accepted
delete_objects_last_example =
    delete_objects_last vocab store (λ t. true) self (codes "spam") [] (gone ∷ letter ∷ []) state
      (gone_doc ∷ []) letter_doc refl refl

-- A storage that counts what is added, where one address loads as a list with a letter
abbrev counting : Store vocab
counting = record {
  State = ℕ;
  Check = Iri;
  load =
      λ n i checks. ok (if i == listing then coll [] [] (more letter_doc no_docs) else letter_doc);
  save = λ n d. (n, ok d);
  delete = λ n i. (n, none);
  is_collection_store = true;
  add_to = λ n to d. (suc n, none);
  remove_client = λ n i. (n, none);
  process_client = λ n d self outbox. (n, none);
  process_item = λ n d a outbox. (n, none);
  is_conflict = λ e. true;
  is_not_found = λ e. true;
}

abbrev list_rank : Iri → ℕ
list_rank i = if i == listing then 1 else 0

counting_ranked : Ranked vocab counting (λ n. Unit) list_rank
counting_ranked n i it its sound loaded several members = elim (Bool-cases (i == listing)) [
  | inr other ↦ ground arith
  | inl same ↦
      let is : coll [] [] (more letter_doc no_docs) ≡ it = ground arith in
      let held : ok (letter_doc ∷ []) ≡ ok its = ap vocab.members is ∙ members in
      let these : letter_doc ∷ [] ≡ its = ground arith in
      (
        rw same (omega arith),
        subst (All (λ m. list_rank (vocab.link m) < list_rank i)) these (rw same (omega arith, tt)),
      )
]

operate_on_objects_ends_example :
    (t : ℕ) × (e : Option Fault) × ((more : ℕ)
      → operate_on_objects vocab counting
          (2 + more)
          (copy_one vocab counting)
          target
          (letter ∷ listing ∷ [])
          0
        ≡ done t e)
operate_on_objects_ends_example =
    operate_on_objects_ends vocab counting (λ n. Unit) list_rank counting_ranked
      (copy_one vocab counting) (λ to it n sound. tt) 2 target (letter ∷ listing ∷ []) 0 tt
      (omega arith) (omega arith, (omega arith, tt))
