-- ===== src/Keys/RoundTrip.antt =====
-- Metadata that is loaded from one storage and saved to another.
use fedbox.Prelude.{
  ◌≡◌, inl, inr, true, List, [], ◌∷◌, ◌==◌, text_eq, arith, if◌then◌else◌, Bool-cases, text_beq_iff,
  ==_refl, All, All-lookup, Text,
}
use mathlib.Core.List.{Memᴰ}
use fedbox.Fault.{Fault, Result, ok, Result-cases}
use fedbox.Vocab.{Vocab, Iri}
use fedbox.Keys.{
  Crypto, Metadata, MetadataStore, metadata, save_entries, save_metadata_for_items,
  load_metadata_for_items,
}
use fedbox.Keys.Laws.{Remembers}

module _ (C : Crypto) (V : Vocab) (M : MetadataStore V) (L : Remembers C V M) where
  -- Entries that agree with a map
  abbrev Agree : (Iri → Metadata) → List (Iri × Metadata) → Type 0
  Agree f = All (λ e. f e.0 ≡ e.1)

  metadata-save :
      (s : M.State) (i j : Iri) (m : Metadata)
      → metadata C V M (M.save_metadata s i m).0 j ≡ (if j == i then m else metadata C V M s j)
  metadata-save s i j m = ground (arith, L.load-save s i j m)

  save_keeps :
      (f : Iri → Metadata) (entries : List (Iri × Metadata)) (errs : List Fault) (s : M.State)
      (j : Iri)
      → Agree f entries
      → metadata C V M s j ≡ f j
      → metadata C V M (save_entries C V M entries errs s).0 j ≡ f j
  unfolding save_entries
  save_keeps f [] errs s j agree same = same
  save_keeps f ((i, m) ∷ entries) errs s j (one, agree) same =
      save_keeps f entries _ (M.save_metadata s i m).0 j agree
        (ground (arith, metadata-save s i j m, text_beq_iff j i))

  save_sets :
      (f : Iri → Metadata) (entries : List (Iri × Metadata)) (errs : List Fault) (s : M.State)
      → Agree f entries
      → All (λ e. metadata C V M (save_entries C V M entries errs s).0 e.0 ≡ f e.0) entries
  unfolding save_entries
  save_sets f [] errs s agree = tt
  save_sets f ((i, m) ∷ entries) errs s (one, agree) = (
    save_keeps f entries _ (M.save_metadata s i m).0 i agree
        (ground (arith, metadata-save s i i m, ==_refl i)),
    save_sets f entries _ (M.save_metadata s i m).0 agree,
  )

  load-Agree :
      (s : M.State) (its : List V.Item)
      → Agree (metadata C V M s) (load_metadata_for_items C V M s its)
  unfolding load_metadata_for_items
  load-Agree s [] = tt
  load-Agree s (it ∷ its) = elim (Bool-cases (V.matches (M.person_type ∷ []) (V.types it))) [
    | inr other ↦ rw other (load-Agree s its)
    | inl person ↦ elim (Result-cases (M.load_metadata s (V.link it))) [
      | inl (e, bad) ↦ rw (person, bad) (load-Agree s its)
      | inr (m, good) ↦ rw (person, good) (ground (arith, good), load-Agree s its)
    ]
  ]

  -- The persons whose metadata can be loaded
  unfoldable pub Known : M.State → V.Item → Type 0
  Known s it =
      (V.matches (M.person_type ∷ []) (V.types it) ≡ true)
      × (m : Metadata) × (M.load_metadata s (V.link it) ≡ ok m)

  load-All :
      (Q : Iri → Type 0) (s : M.State) (its : List V.Item)
      → All (Known s) its
      → All (λ e. Q e.0) (load_metadata_for_items C V M s its)
      → All (λ it. Q (V.link it)) its
  unfolding load_metadata_for_items Known
  load-All Q s [] known h = tt
  load-All Q s (it ∷ its) ((person, m, loaded), known) h =
      let h' : All (λ e. Q e.0) ((V.link it, m) ∷ load_metadata_for_items C V M s its) =
        rw (person, loaded) at h in
      (h'.0, load-All Q s its known h'.1)

  Agree-among :
      (f : Iri → Metadata) (entries back : List (Iri × Metadata))
      → Agree f entries
      → All (λ e. Memᴰ e entries) back
      → Agree f back
  Agree-among f entries [] agree among = tt
  Agree-among f entries (e ∷ back) agree (one, among) =
      (All-lookup (λ e. f e.0 ≡ e.1) entries e agree one, Agree-among f entries back agree among)

  All-keys :
      (Q : Iri → Type 0) (entries back : List (Iri × Metadata))
      → All (λ e. Q e.0) back
      → All (λ e. (m : Metadata) × Memᴰ (e.0, m) back) entries
      → All (λ e. Q e.0) entries
  All-keys Q [] back h keys = tt
  All-keys Q (e ∷ entries) back h ((m, one), keys) =
      (All-lookup (λ e. Q e.0) back (e.0, m) h one, All-keys Q entries back h keys)

  -- The entries of a map that was encoded and decoded: they are among those that were set, and there
  -- is one for each key.
  pub record SameMap (entries back : List (Iri × Metadata)) : Type 0 where
    pub among : All (λ e. Memᴰ e entries) back
    pub keys : All (λ e. (m : Metadata) × Memᴰ (e.0, m) back) entries

  -- On storages that remember, and for persons whose metadata can all be loaded: where the metadata
  -- that is loaded for them from one storage is encoded as a text, and the text is decoded to the
  -- same map, saving that text to another storage gives each of them the same metadata there.
  pub save_metadata-load_metadata :
      (marshal : List (Iri × Metadata) → Result Text)
      (unmarshal : Text → Result (List (Iri × Metadata))) (s t : M.State) (its : List V.Item)
      (buf : Text) (back : List (Iri × Metadata))
      → marshal (load_metadata_for_items C V M s its) ≡ ok buf
      → unmarshal buf ≡ ok back
      → SameMap (load_metadata_for_items C V M s its) back
      → All (Known s) its
      → All
          (λ it.
            metadata C V M (save_metadata_for_items C V M unmarshal buf t).0 (V.link it)
            ≡ metadata C V M s (V.link it))
          its
  unfolding save_metadata_for_items
  save_metadata-load_metadata marshal unmarshal s t its buf back encoded decoded same h =
      let entries = load_metadata_for_items C V M s its in
      let saved = save_entries C V M back [] t in
      let sets =
        save_sets (metadata C V M s) back [] t
          (Agree-among (metadata C V M s) entries back (load-Agree s its) same.among) in
      rw (decoded, save_metadata_for_items)
        (load-All (λ i. metadata C V M saved.0 i ≡ metadata C V M s i) s its h
          (All-keys (λ i. metadata C V M saved.0 i ≡ metadata C V M s i) entries back sets
            same.keys))
