-- ===== src/Env/Laws.antt =====
-- What the tests of environment types accept.
use fedbox.Prelude.{
  ℕ, ◌≤◌, ◌≡◌, refl, ◌↔◌, ◌⊎◌, inl, inr, true, false, [], ◌∷◌, Text, codes, arith, text_beq_iff,
  text_eq, Bool-cases,
}
use fedbox.Go.Strings.{to_lower, to_upper, has_prefix, str_contains}
use fedbox.Env.{
  EnvType, dev, prod, qa, test, valid_among, valid_type, valid_type_or_dev, is_prod, is_qa, is_test,
  is_dev,
}

to_lower-to_upper : (s : Text) → to_lower (to_upper s) ≡ to_lower s
unfolding to_lower to_upper
to_lower-to_upper [] = refl
to_lower-to_upper (c ∷ s) = ground (arith, to_lower-to_upper s)

-- A type is valid exactly when it is, in small letters, one of the four types.
valid_type_iff :
    (t : EnvType)
    → (valid_type t ≡ true)
      ↔ ((to_lower t ≡ prod) ⊎ (to_lower t ≡ qa) ⊎ (to_lower t ≡ dev) ⊎ (to_lower t ≡ test))
unfolding valid_type
valid_type_iff t = ground (
  arith,
  text_beq_iff (to_lower t) prod,
  text_beq_iff (to_lower t) qa,
  text_beq_iff (to_lower t) dev,
  text_beq_iff (to_lower t) test,
)

valid_dev : valid_type dev ≡ true
unfolding valid_type
valid_dev = refl

-- `valid_type_or_dev` always gives a valid type, and gives back the type exactly when it is valid.
valid_type_or_dev_lem :
    (t : EnvType)
    → (valid_type (valid_type_or_dev t) ≡ true)
      × ((valid_type t ≡ true) ↔ (valid_type_or_dev t ≡ t))
unfolding valid_type_or_dev
valid_type_or_dev_lem t = elim (Bool-cases (valid_type t)) [
  | inl valid ↦ rw (valid, valid_type_or_dev) (valid, ((λ h. refl), (λ h. refl)))
  | inr other ↦ rw (other, valid_type_or_dev) (valid_dev, ((λ h. cc), (λ h. cc valid_dev)))
]

has_prefix-to_upper :
    (s : Text) (c : ℕ) (p : Text) → b'a' ≤ c → c ≤ b'z' → has_prefix (to_upper s) (c ∷ p) ≡ false
unfolding has_prefix to_upper
has_prefix-to_upper [] c p lo hi = refl
has_prefix-to_upper (d ∷ s) c p lo hi = ground arith

str_contains-to_upper :
    (s : Text) (c : ℕ) (p : Text) → b'a' ≤ c → c ≤ b'z' → str_contains (to_upper s) (c ∷ p) ≡ false
unfolding str_contains to_upper
str_contains-to_upper [] c p lo hi = refl
str_contains-to_upper (d ∷ s) c p lo hi =
    ground (arith, has_prefix-to_upper (d ∷ s) c p lo hi, str_contains-to_upper s c p lo hi)

-- Writing a type in capitals does not change whether it is valid, and the result is taken for none
-- of the four types by the tests that the program branches on.
valid_type-to_upper :
    (t : EnvType)
    → (valid_type (to_upper t) ≡ valid_type t)
      × (is_prod (to_upper t) ≡ false)
      × (is_qa (to_upper t) ≡ false)
      × (is_test (to_upper t) ≡ false)
      × (is_dev (to_upper t) ≡ false)
unfolding valid_type is_prod is_qa is_test is_dev
valid_type-to_upper t = (
  rw (to_lower-to_upper t, valid_among),
  str_contains-to_upper t b'p' (codes "rod") (omega arith) (omega arith),
  str_contains-to_upper t b'q' (codes "a") (omega arith) (omega arith),
  str_contains-to_upper t b't' (codes "est") (omega arith) (omega arith),
  str_contains-to_upper t b'd' (codes "ev") (omega arith) (omega arith),
)
