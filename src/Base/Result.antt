-- ===== src/Base/Result.antt =====
-- Fallible results: `Result<T, ValidationError>`. The text that an error carries is left out.
use perpcity_rust_sdk.Base.{◌≡◌, refl, ◌⊎◌, inl, inr}
use perpcity_rust_sdk.Base.Int.{ℤ}

pub data ValidationError : Type 0 where
  invalid_price invalid_margin invalid_leverage invalid_share invalid_amount : ValidationError
  invalid_tick_range no_band_capacity : ℤ → ℤ → ValidationError
  overflow invalid_config : ValidationError

pub data Result {ℓ} (A : Type ℓ) : Type ℓ where
  err : ValidationError → Result A
  ok : A → Result A

pub Result-cases {ℓ} :
    {A : Type ℓ} (r : Result A) → ((e : ValidationError) × (r ≡ err e)) ⊎ ((a : A) × (r ≡ ok a))
Result-cases (ok a) = inr (a, refl)
Result-cases (err e) = inl (e, refl)

-- The operator `?`: an error is returned at once.
module _ {ℓ κ} {A : Type ℓ} {B : Type κ} where
  infixl 5 ◌>>=◌
  abbrev pub ◌>>=◌ : Result A → (A → Result B) → Result B
  err e >>= rest = err e
  ok value >>= rest = rest value

  -- Where the whole succeeds, the first part did.
  pub >>=-eq-ok :
      (first : Result A) (rest : A → Result B) {b : B}
      → (first >>= rest) ≡ ok b
      → (a : A) × (first ≡ ok a) × (rest a ≡ ok b)
  >>=-eq-ok (err e) rest h = cc
  >>=-eq-ok (ok a) rest h = (a, refl, h)
