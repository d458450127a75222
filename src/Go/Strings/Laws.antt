-- ===== src/Go/Strings/Laws.antt =====
-- Splitting what was joined.
use fedbox.Prelude.{
  ℕ, ◌≡◌, refl, ap, ◌∙◌, true, false, List, [], ◌∷◌, ◌++◌, arith, Text, nat_beq, All, contains,
  Bool-cases, inl, inr, nat_eq,
}
use fedbox.Go.Strings.{split, join}

-- A text without a byte
abbrev pub Lacks : ℕ → Text → Type 0
Lacks sep = All (λ c. nat_beq c sep ≡ false)

-- A byte that a text does not contain
pub contains-Lacks : (sep : ℕ) (p : Text) → contains p sep ≡ false → Lacks sep p
contains-Lacks sep [] h = tt
contains-Lacks sep (c ∷ p) h = elim (Bool-cases (nat_beq c sep)) [
  | inl here ↦ ground arith
  | inr other ↦ (other, contains-Lacks sep p (ground arith))
]

split_whole : (sep : ℕ) (p : Text) → Lacks sep p → split p sep ≡ p ∷ []
unfolding split
split_whole sep [] h = refl
split_whole sep (c ∷ p) h = rw (h.0, split_whole sep p h.1)

pub split-append :
    (sep : ℕ) (p t : Text)
    → nat_beq sep sep ≡ true
    → Lacks sep p
    → split (p ++ (sep ∷ t)) sep ≡ p ∷ split t sep
unfolding split
split-append sep [] t same h = rw same
split-append sep (c ∷ p) t same h = rw (h.0, split-append sep p t same h.1)

pub split-join :
    (sep : ℕ) (p : Text) (ps : List Text)
    → nat_beq sep sep ≡ true
    → All (Lacks sep) (p ∷ ps)
    → split (join (p ∷ ps) (sep ∷ [])) sep ≡ p ∷ ps
unfolding join
split-join sep p [] same h = split_whole sep p h.0
split-join sep p (q ∷ ps) same h =
    split-append sep p (join (q ∷ ps) (sep ∷ [])) same h.0
    ∙ ap (λ rest. p ∷ rest) (split-join sep q ps same h.1)
