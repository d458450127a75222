-- ===== src/Control/Deletion/Laws.antt =====
-- What a deletion names, and who receives it.
use fedbox.Prelude.{
  ◌≡◌, refl, sym, ap, ◌∙◌, inl, inr, Bool, true, some, List, [], ◌∷◌, ◌++◌, Text, arith,
  if◌then◌else◌,
}
use mathlib.Core.List.{append_assoc, append-nil}
use fedbox.Fault.{ok, err, not_found, Result-cases}
use fedbox.Vocab.{Vocab, Iri}
use fedbox.Control.Store.{Draft, Store}
use fedbox.Control.Deletion.{
  accepted, removable, author_of, add_object, add_objects, add_loaded, empty_draft, send_deletion,
  delete_objects,
}

module _ (V : Vocab) (S : Store V) where
  -- The links of the removable objects of a list
  unfoldable pub removable_links : List V.Item → List Iri
  removable_links [] = []
  removable_links (o ∷ os) =
      if removable V S o then V.link o ∷ removable_links os else removable_links os

  add_objects-links :
      (d : Draft) (os : List V.Item)
      → (add_objects V S d os).objects ≡ d.objects ++ removable_links os
  unfolding add_objects removable_links
  add_objects-links d [] = sym (append-nil d.objects)
  add_objects-links d (o ∷ os) = ground (
    arith,
    add_objects-links (add_object V S d o) os,
    append_assoc d.objects (V.link o ∷ []) (removable_links os),
  )

  -- The objects that the IRIs load, those of the ones that cannot be loaded left out
  unfoldable pub loaded_objects : List Iri → S.State → List V.Item
  loaded_objects [] s = []
  loaded_objects (iri ∷ ids) s = elim (S.load s iri []) [
    | err e ↦ loaded_objects ids s
    | ok it ↦ V.objects it ++ loaded_objects ids s
  ]

  add_objects-append :
      (d : Draft) (os ps : List V.Item)
      → add_objects V S d (os ++ ps) ≡ add_objects V S (add_objects V S d os) ps
  unfolding add_objects
  add_objects-append d [] ps = refl
  add_objects-append d (o ∷ os) ps = add_objects-append (add_object V S d o) os ps

  add_loaded-add_objects :
      (d : Draft) (ids : List Iri) (s : S.State)
      → add_loaded V S d ids s ≡ add_objects V S d (loaded_objects ids s)
  unfolding add_loaded loaded_objects
  add_loaded-add_objects d [] s = refl
  add_loaded-add_objects d (iri ∷ ids) s = elim (Result-cases (S.load s iri [])) [
    | inl (e, bad) ↦ rw (bad, add_loaded, loaded_objects) (add_loaded-add_objects d ids s)
    | inr (it, good) ↦
        rw (good, add_loaded, loaded_objects)
          (add_loaded-add_objects (add_objects V S d (V.objects it)) ids s
            ∙ sym (add_objects-append d (V.objects it) (loaded_objects ids s)))
  ]

  -- Nothing is sent, and the storage is as it was, if no loaded object can be removed.
  delete_objects_none :
      (parses : Text → Bool) (self : V.Item) (reason : Text) (refs : List Text) (ids : List Iri)
      (s : S.State)
      → removable_links (loaded_objects ids s) ≡ []
      → delete_objects V S parses self reason refs ids s ≡ (s, some not_found)
  unfolding delete_objects
  delete_objects_none parses self reason refs ids s empty =
      let d = empty_draft V S parses reason refs in
      let links : (add_loaded V S d ids s).objects ≡ [] =
        ap (λ (e : Draft). e.objects) (add_loaded-add_objects d ids s)
        ∙ add_objects-links d (loaded_objects ids s)
        ∙ empty in
      ground (arith, links)

  add_objects-keeps :
      (d : Draft) (os : List V.Item)
      → ((add_objects V S d os).type_name ≡ d.type_name)
        × ((add_objects V S d os).in_reply_to ≡ d.in_reply_to)
        × ((add_objects V S d os).content ≡ d.content)
  unfolding add_objects
  add_objects-keeps d [] = (refl, refl, refl)
  add_objects-keeps d (o ∷ os) = ground (arith, add_objects-keeps (add_object V S d o) os)

  send_deletion-append :
      (self : V.Item) (d : Draft) (links : List Iri) (link : Iri) (s : S.State)
      → send_deletion V S self d (links ++ (link ∷ [])) s
        ≡ S.process_client s
            (record d { cc = d.cc ++ (V.link self ∷ []) })
            self
            (V.link (V.of V.outbox self))
  unfolding send_deletion
  send_deletion-append self d [] link s = refl
  send_deletion-append self d (l ∷ links) link s = refl

  removable_links-append :
      (os : List V.Item) (o : V.Item)
      → removable V S o ≡ true
      → removable_links (os ++ (o ∷ [])) ≡ removable_links os ++ (V.link o ∷ [])
  unfolding removable_links
  removable_links-append [] o fits = rw fits
  removable_links-append (p ∷ os) o fits = ground (arith, removable_links-append os o fits)

  -- A draft addressed to the recipients of one object
  addressed : Draft → V.Item → List Iri → Draft
  addressed d o links = record d {
    to = V.to o;
    bto = V.bto o;
    cc = V.cc o ++ author_of V S o;
    bcc = V.bcc o;
    objects = links;
  }

  add_objects_last :
      (d : Draft) (os : List V.Item) (o : V.Item)
      → d.objects ≡ []
      → removable V S o ≡ true
      → add_objects V S d (os ++ (o ∷ [])) ≡ addressed d o (removable_links os ++ (V.link o ∷ []))
  unfolding add_objects addressed
  add_objects_last d os o empty fits =
      add_objects-append d os (o ∷ [])
      ∙ ground (arith, add_objects-keeps d os, add_objects-links d os)

  -- If the last object that is loaded can be removed, the deletion that is sent names all the
  -- removable objects, in the order in which they were loaded, but it is addressed to the recipients of the last one alone, and to the author of that
  -- one and the service itself.
  pub delete_objects_last :
      (parses : Text → Bool) (self : V.Item) (reason : Text) (refs : List Text) (ids : List Iri)
      (s : S.State) (os : List V.Item) (o : V.Item)
      → loaded_objects ids s ≡ os ++ (o ∷ [])
      → removable V S o ≡ true
      → delete_objects V S parses self reason refs ids s
        ≡ S.process_client s
            (record {
              type_name = V.delete_type;
              to = V.to o;
              bto = V.bto o;
              cc = (V.cc o ++ author_of V S o) ++ (V.link self ∷ []);
              bcc = V.bcc o;
              in_reply_to = accepted V S parses refs;
              content = reason;
              objects = removable_links (os ++ (o ∷ []));
            })
            self
            (V.link (V.of V.outbox self))
  unfolding delete_objects addressed
  delete_objects_last parses self reason refs ids s os o loaded fits =
      let d = empty_draft V S parses reason refs in
      let built =
        add_loaded-add_objects d ids s
        ∙ ap (add_objects V S d) loaded
        ∙ add_objects_last d os o refl fits in
      rw (built, delete_objects, removable_links-append os o fits)
        (send_deletion-append self _ (removable_links os) (V.link o) s)
