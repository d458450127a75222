-- ===== src/Ids/Laws.antt =====
-- Where a new item lives.
use fedbox.Prelude.{
  ◌≡◌, refl, ◌⊎◌, inl, inr, true, false, ◌||◌, Option, none, some, contains, text_eq, Bool-cases,
}
use fedbox.Fault.{Fault}
use fedbox.Vocab.{Vocab, Iri}
use fedbox.Ids.{Naming, named, author_or_actor, activity_id, named_activity, new_id}

module _ (V : Vocab) (N : Naming V) where
  -- The id of an activity is in the collection if the activity is public or nobody is known to have
  -- done it, and otherwise in the outbox of its author, or of its actor if it has no author.
  abbrev Placed : V.Item → Iri → V.Item → Iri → Type 0
  Placed it part_of by id =
      (((contains (N.recipients it) V.public_ns ≡ true)
          ⊎ (V.is_nil (author_or_actor V N by it) ≡ true))
        × (id ≡ N.add_path part_of N.new_uuid))
      ⊎ ((contains (N.recipients it) V.public_ns ≡ false)
          × (V.is_nil (author_or_actor V N by it) ≡ false)
          × (id ≡ N.add_path (N.outbox_iri (author_or_actor V N by it)) N.new_uuid))

  named_id : (it : V.Item) (id : Iri) (e : Option Fault) → (named V N it id e).1 ≡ id
  unfolding named
  named_id it id none = refl
  named_id it id (some e) = refl

  activity_id-Placed :
      (it : V.Item) (part_of : Iri) (by : V.Item)
      → Placed it part_of by (activity_id V N (N.add_path part_of N.new_uuid) by it)
  unfolding activity_id
  activity_id-Placed it part_of by = elim (Bool-cases (contains (N.recipients it) V.public_ns)) [
    | inl public ↦ inl (inl public, rw (public, activity_id) refl)
    | inr private ↦ elim (Bool-cases (V.is_nil (author_or_actor V N by it))) [
      | inl nobody ↦ inl (inr nobody, rw (private, activity_id, nobody) refl)
      | inr known ↦ inr (private, known, rw (private, activity_id, known) refl)
    ]
  ]

  -- The id that GenerateID gives an activity that can be read as one: it is the collection's if the
  -- activity is public or has neither author nor actor, and otherwise the outbox's of that one.
  new_id-Placed :
      (it : V.Item) (part_of : Iri) (by : V.Item)
      → (V.matches V.activity_types (V.types it) || V.matches V.intransitive_types (V.types it))
        ≡ true
      → N.on_activity it ≡ none
      → Placed it part_of by (new_id V N it part_of by).1
  unfolding new_id named_activity
  new_id-Placed it part_of by activity reads =
      rw
        (
          activity,
          new_id,
          reads,
          named_activity,
          named_id it (activity_id V N (N.add_path part_of N.new_uuid) by it) (N.on_object it),
        )
        (activity_id-Placed it part_of by)
