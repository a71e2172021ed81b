-- ===== src/Prelude/Results.antt =====
-- A Go function's (value, error) pair, where the error decides whether the value is used.
use mathlib.Core.Path.{◌≡◌, refl}
use mathlib.Core.Logic.{◌⊎◌, inl, inr}

pub data Result {ℓ κ} (E : Type ℓ) (A : Type κ) : Type (ℓ ⊔ κ) where
  ok : A → Result E A
  err : E → Result E A

module _ {ℓ κ μ} {E : Type ℓ} {A : Type κ} {B : Type μ} where
  infixl 5 ◌>>=◌
  abbrev pub ◌>>=◌ : Result E A → (A → Result E B) → Result E B
  ok a >>= f = f a
  err e >>= f = err e

  -- The two parts of a chain that has succeeded.
  pub >>=-eq-ok :
      (first : Result E A) (second : A → Result E B) {result : B}
      → (first >>= second) ≡ ok result
      → (middle : A) × (first ≡ ok middle) × (second middle ≡ ok result)
  >>=-eq-ok (err failure) second e = cc
  >>=-eq-ok (ok middle) second e = (middle, refl, e)

pub Result-cases {ℓ κ} :
    {E : Type ℓ} {A : Type κ} (r : Result E A) → ((a : A) × (r ≡ ok a)) ⊎ ((e : E) × (r ≡ err e))
Result-cases (ok a) = inl (a, refl)
Result-cases (err e) = inr (e, refl)
