-- ===== src/Http/Typer/Laws.antt =====
-- What `pathTyper.Type` can give.
use fedbox.Prelude.{
  ◌≡◌, refl, sym, ◌∙◌, ◌⊎◌, inl, inr, true, ◌||◌, List, [], ◌∷◌, reverse, Text, arith, ◌==◌,
  text_eq, text_beq_iff, ==_refl, contains, Bool-cases,
}
use mathlib.Core.List.{reverse_aux}
use fedbox.Go.Strings.{to_lower, split, trim_left}
use fedbox.Go.FilePath.{clean}
use fedbox.Vocab.{Vocab, CollectionPath}
use fedbox.Http.Typer.{last_valid, path_type}

contains-reverse_aux :
    (xs ys : List Text) (e : Text)
    → contains (reverse_aux xs ys) e ≡ (contains xs e || contains ys e)
contains-reverse_aux [] ys e = refl
contains-reverse_aux (x ∷ xs) ys e = ground (arith, contains-reverse_aux xs (x ∷ ys) e)

contains-reverse : (xs : List Text) (e : Text) → contains (reverse xs) e ≡ contains xs e
contains-reverse xs e = ground (arith, contains-reverse_aux xs [] e)

module _ (V : Vocab) where
  -- One of the elements is, in small letters, the collection.
  pub Names : CollectionPath → List Text → Type 0
  Names col elements = (e : Text) × (contains elements e ≡ true) × (col ≡ to_lower e)

  Outcome : CollectionPath → List Text → Type 0
  Outcome col elements =
      (col ≡ V.unknown) ⊎ ((contains V.valid_collections col ≡ true) × Names col elements)

  Outcome-cons :
      (col : CollectionPath) (e : Text) (es : List Text) → Outcome col es → Outcome col (e ∷ es)
  unfolding Outcome Names
  Outcome-cons col e es (inl unknown) = inl unknown
  Outcome-cons col e es (inr (valid, (d, listed, same))) = inr (valid, (d, ground arith, same))

  last_valid_sound : (es : List Text) → Outcome (last_valid V es) es
  unfolding last_valid Outcome Names
  last_valid_sound [] = inl refl
  last_valid_sound (e ∷ es) = elim (Bool-cases (contains V.valid_collections (to_lower e))) [
    | inl valid ↦ rw (valid, last_valid) (inr (valid, (e, rw (contains, ==_refl e), refl)))
    | inr other ↦ rw (other, last_valid) (Outcome-cons _ e es (last_valid_sound es))
  ]

  shortest :
      (p col : Text) (es : List Text)
      → clean p ≡ p
      → Outcome col (reverse es)
      → (col ≡ V.unknown)
        ⊎ ((contains V.valid_collections col ≡ true) × (clean p ≡ p) × Names col es)
  unfolding Outcome Names
  shortest p col es short (inl unknown) = inl unknown
  shortest p col es short (inr (valid, (e, listed, same))) =
      inr (valid, short, (e, sym (contains-reverse es e) ∙ listed, same))

  -- The collection of a path is either unknown, or a valid collection that a path in its shortest
  -- form has among its elements, in any case of the letters.
  pub path_type_sound :
      (p : Text)
      → (path_type V p ≡ V.unknown)
        ⊎ ((contains V.valid_collections (path_type V p) ≡ true)
            × (clean p ≡ p)
            × Names (path_type V p) (split (trim_left p b'/') b'/'))
  unfolding path_type
  path_type_sound [] = inl refl
  path_type_sound (c ∷ s) =
      let es = split (trim_left (c ∷ s) b'/') b'/' in
      elim (Bool-cases (clean (c ∷ s) == (c ∷ s))) [
        | inl short ↦
            rw short
              (shortest (c ∷ s) _ es ((text_beq_iff _ _).0 short) (last_valid_sound (reverse es)))
        | inr longer ↦ rw longer (inl refl)
      ]
