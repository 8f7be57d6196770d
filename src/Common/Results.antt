-- ===== src/Common/Results.antt =====
-- Rust's `Result`, with the bind that `?` and `and_then` stand for.
use mathlib.Core.Path.{◌≡◌, refl}
use mathlib.Core.Logic.{◌⊎◌, inl, inr}

pub data Result {ℓ κ} (E : Type ℓ) (A : Type κ) : Type (ℓ ⊔ κ) where
  err : E → Result E A
  ok : A → Result E A

pub Result-cases {ℓ κ} :
    {E : Type ℓ} {A : Type κ} (r : Result E A) → ((a : A) × (r ≡ ok a)) ⊎ ((e : E) × (r ≡ err e))
Result-cases (err e) = inr (e, refl)
Result-cases (ok a) = inl (a, refl)

module _ {ℓ κ μ} {E : Type ℓ} {A : Type κ} {B : Type μ} where
  infixl 5 ◌>>=◌
  abbrev pub ◌>>=◌ : Result E A → (A → Result E B) → Result E B
  err problem >>= next = err problem
  ok value >>= next = next value

  -- The steps of a chain that succeeded.
  abbrev pub Chained : Result E A → (A → Result E B) → B → Type (ℓ ⊔ κ ⊔ μ)
  Chained first next result = (value : A) × (first ≡ ok value) × (next value ≡ ok result)

  pub >>=-eq-ok :
      (first : Result E A) (next : A → Result E B) {result : B}
      → (first >>= next) ≡ ok result
      → Chained first next result
  >>=-eq-ok (err problem) next eq = cc
  >>=-eq-ok (ok value) next eq = (value, refl, eq)
