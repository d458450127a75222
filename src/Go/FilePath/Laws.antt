-- ===== src/Go/FilePath/Laws.antt =====
-- The last element of a path.
use fedbox.Prelude.{
  ℕ, ◌≡◌, refl, ap, ◌∙◌, List, [], ◌∷◌, ◌++◌, Text, codes, nat_eq, nat_beq, Bool-cases, inl, inr,
}
use fedbox.Go.Strings.{split, push_head}
use fedbox.Go.FilePath.{non_empty, last_or, base}

-- Some texts end in a text, with another one before it.
abbrev EndsIn : Text → List Text → Type 0
EndsIn t ps = (q : Text) × (qs : List Text) × (ps ≡ (q ∷ qs) ++ (t ∷ []))

push_head-EndsIn : (c : ℕ) (t : Text) (ps : List Text) → EndsIn t ps → EndsIn t (push_head c ps)
push_head-EndsIn c t ps (q, qs, is) = (c ∷ q, qs, rw is refl)

split-EndsIn : (p t : Text) → split t b'/' ≡ t ∷ [] → EndsIn t (split (p ++ (b'/' ∷ t)) b'/')
unfolding split
split-EndsIn [] t whole = ([], [], rw whole refl)
split-EndsIn (c ∷ p) t whole = elim (Bool-cases (nat_beq c b'/')) [
  | inl slash ↦ let (q, qs, is) = split-EndsIn p t whole in ([], q ∷ qs, rw (slash, is) refl)
  | inr other ↦ let e = push_head-EndsIn c t _ (split-EndsIn p t whole) in (e.0, e.1, rw other e.2)
]

last_or-last :
    (d c : Text) (x : ℕ) (qs : List Text) → last_or d (non_empty (qs ++ ((x ∷ c) ∷ []))) ≡ x ∷ c
unfolding last_or non_empty
last_or-last d c x [] = refl
last_or-last d c x ([] ∷ qs) = last_or-last d c x qs
last_or-last d c x ((y ∷ q) ∷ qs) = last_or-last (y ∷ q) c x qs

base-cons :
    (p : Text) (s : Text)
    → base (p ++ (b'/' ∷ s)) ≡ last_or (codes "/") (non_empty (split (p ++ (b'/' ∷ s)) b'/'))
unfolding base
base-cons [] s = refl
base-cons (c ∷ p) s = refl

-- The last element of a path is what follows a slash.
pub base_append :
    (p t : Text) (c : ℕ) → split (c ∷ t) b'/' ≡ (c ∷ t) ∷ [] → base (p ++ (b'/' ∷ c ∷ t)) ≡ c ∷ t
base_append p t c whole =
    let (q, qs, is) = split-EndsIn p (c ∷ t) whole in
    base-cons p (c ∷ t)
    ∙ ap (λ ps. last_or (codes "/") (non_empty ps)) is
    ∙ last_or-last (codes "/") t c (q ∷ qs)
