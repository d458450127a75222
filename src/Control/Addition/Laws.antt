-- ===== src/Control/Addition/Laws.antt =====
-- Adding an actor compared with adding an object.
use fedbox.Prelude.{◌≡◌, true, false, Option, none, some, [], ◌∷◌, Text, ◌==◌, text_eq}
use fedbox.Fault.{Fault, Result, ok, err, not_found, failed}
use fedbox.Vocab.{Vocab}
use fedbox.Control.Store.{Store}
use fedbox.Control.Addition.{Adding, Added, added, refused, panicked}

module _ (V : Vocab) (S : Store V) (A : Adding V S) where
  -- What is not nil has a link that is not nil.
  abbrev HasLinks : Type 0
  HasLinks = (it : V.Item) → V.is_nil it ≡ false → V.is_nil (V.iri_item (V.link it)) ≡ false

  -- Who adds an item: the author, or for the anonymous actor the actor that is stored as the
  -- service; without an id nobody does.
  pub data AddedBy (base_url : Text) (author : V.Item) (s : S.State) : Result V.Item → Type 0 where
    itself :
        A.is_anonymous (V.link author) ≡ false
        → A.id author == [] ≡ false
        → AddedBy base_url author s (ok author)
    no_author_id :
        A.is_anonymous (V.link author) ≡ false
        → A.id author == [] ≡ true
        → AddedBy base_url author s (err not_found)
    the_service :
        (it self : V.Item)
        → A.is_anonymous (V.link author) ≡ true
        → S.load s (A.service_iri base_url) [] ≡ ok it
        → A.on_actor it ≡ ok self
        → A.id self == [] ≡ false
        → AddedBy base_url author s (ok self)
    no_service_id :
        (it self : V.Item)
        → A.is_anonymous (V.link author) ≡ true
        → S.load s (A.service_iri base_url) [] ≡ ok it
        → A.on_actor it ≡ ok self
        → A.id self == [] ≡ true
        → AddedBy base_url author s (err not_found)
    no_service_actor :
        (it : V.Item) (e : Fault)
        → A.is_anonymous (V.link author) ≡ true
        → S.load s (A.service_iri base_url) [] ≡ ok it
        → A.on_actor it ≡ err e
        → AddedBy base_url author s (err not_found)
    no_service :
        (e : Fault)
        → A.is_anonymous (V.link author) ≡ true
        → S.load s (A.service_iri base_url) [] ≡ err e
        → AddedBy base_url author s (err not_found)

  -- The outcome of processing the creation of an item by an actor
  abbrev processing : V.Item → V.Item → S.State → S.State × V.Item × Option Fault
  processing p by s =
      A.process s
        (record {
          type_name = A.create_type;
          to = V.public_ns ∷ [];
          cc = A.append [] (V.iri_item (V.link by) ∷ V.of A.followers by ∷ []);
          object = p;
          attributed_to = V.link by;
          actor = by;
        })
        by (V.link (V.of V.outbox by))

  -- What adding an item as an object and as an actor give
  pub data Compared (base_url : Text) (p author : V.Item) (s : S.State)
      : S.State × Added V → S.State × Added V → Type 0 where
    no_author :
        (e : Fault)
        → AddedBy base_url author s (err e)
        → Compared base_url p author s (s, refused e) (s, refused e)
    no_outbox :
        (by : V.Item)
        → AddedBy base_url author s (ok by)
        → V.is_nil (V.of V.outbox by) ≡ true
        → Compared base_url p author s (s, panicked) (s, refused failed)
    processed :
        (by : V.Item) (s' : S.State) (it : V.Item)
        → AddedBy base_url author s (ok by)
        → V.is_nil (V.of V.outbox by) ≡ false
        → processing p by s ≡ (s', it, none)
        → Compared base_url p author s (s', added it) (s', added it)
    conflicting :
        (by : V.Item) (s' : S.State) (it : V.Item) (e : Fault)
        → AddedBy base_url author s (ok by)
        → V.is_nil (V.of V.outbox by) ≡ false
        → processing p by s ≡ (s', it, some e)
        → S.is_conflict e ≡ true
        → Compared base_url p author s (s', refused e) (s', added it)
    failing :
        (by : V.Item) (s' : S.State) (it : V.Item) (e : Fault)
        → AddedBy base_url author s (ok by)
        → V.is_nil (V.of V.outbox by) ≡ false
        → processing p by s ≡ (s', it, some e)
        → S.is_conflict e ≡ false
        → Compared base_url p author s (s', refused e) (s', refused e)
