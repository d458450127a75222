-- ===== src/Fault.antt =====
-- The errors that the program makes by the package go-ap/errors, without their messages, and the
-- result of a step that may fail.
use fedbox.Prelude.{ℕ, ◌≡◌, refl, ◌⊎◌, inl, inr, Text}

pub data Fault : Type 0 where
  not_found bad_request method_not_allowed unauthorized conflict : Fault
  unsupported_media_type service_unavailable not_modified : Fault
  -- a plain error, made by `errors.Newf` or `errors.Errorf`
  failed : Fault
  see_other : Text → Fault
  -- an error of a library that is not modelled
  foreign : ℕ → Fault
  -- `errors.Annotatef`, which keeps the error it wraps
  annotated : Fault → Fault

pub data Result {ℓ} (A : Type ℓ) : Type ℓ where
  ok : A → Result A
  err : Fault → Result A

infixl 5 ◌>>=◌
abbrev pub ◌>>=◌ {ℓ κ} : {A : Type ℓ} {B : Type κ} → Result A → (A → Result B) → Result B
ok a >>= f = f a
err e >>= f = err e

pub Result-cases {ℓ} :
    {A : Type ℓ} (m : Result A) → ((e : Fault) × (m ≡ err e)) ⊎ ((a : A) × (m ≡ ok a))
Result-cases (ok a) = inr (a, refl)
Result-cases (err e) = inl (e, refl)
