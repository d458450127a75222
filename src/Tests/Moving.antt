-- ===== src/Tests/Moving.antt =====
-- Moving two objects on a small storage that deletes what it is told to.
use fedbox.Prelude.{List, [], ◌∷◌, codes, text_eq}
use fedbox.Vocab.{Iri}
use fedbox.Control.Store.{Store}
use fedbox.Tests.World.{Doc, note, coll, no_docs, vocab, store, Entry, find}

abbrev shelf : Store vocab
shelf = record store { load = find }

abbrev outbox : Iri
outbox = codes "https://x.org/actors/1/outbox"

abbrev one : Iri
one = codes "https://x.org/objects/1"

abbrev two : Iri
two = codes "https://x.org/objects/2"

abbrev text_at : Iri → Doc
text_at i = note i (codes "Note" ∷ []) [] []

abbrev outbox_doc : Doc
outbox_doc = coll outbox [] no_docs

abbrev shelved : List Entry
shelved =
    record { at = outbox; owner = []; doc = outbox_doc }
    ∷ record { at = one; owner = []; doc = text_at one }
    ∷ record { at = two; owner = []; doc = text_at two }
    ∷ []
