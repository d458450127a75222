-- ===== src/Tests/Addition.antt =====
-- The theorem on adding actors and objects, at a small storage.
use fedbox.Prelude.{◌≡◌, refl, some, [], ◌∷◌, ◌++◌, codes, ◌==◌, text_eq}
use fedbox.Fault.{ok, conflict}
use fedbox.Control.Addition.{Adding, add_object, panicked}
use fedbox.Tests.World.{Doc, note, vocab, store}

-- Every object is processed with a conflict.
abbrev clashing : Adding vocab store
clashing = record {
  process = λ s w by outbox. (s, w.object, some conflict);
  append = λ xs ys. xs ++ ys;
  followers = codes "followers";
  create_type = codes "Create";
  id = vocab.link;
  service_iri = λ t. t;
  on_actor = ok;
  is_anonymous = λ i. i == vocab.public_ns;
  activities = codes "activities";
  actors = codes "actors";
  all_objects = codes "objects";
  iri = λ c base. base ++ (codes "/" ++ c);
  generate_id = λ it part_of by. ok (part_of ++ codes "/1");
}

abbrev poem : Doc
poem = note (codes "https://x.org/objects/7") (codes "Note" ∷ []) [] []

abbrev poet : Doc
poet =
    note (codes "https://x.org/actors/1") (codes "Person" ∷ []) []
      (codes "https://x.org/actors/1/inbox")

-- An author without an outbox
lonely : (add_object vocab store clashing (codes "https://x.org") poem poem []).1 ≡ panicked
unfolding add_object
lonely = refl
