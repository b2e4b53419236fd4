-- ===== src/Math/FixedPoint/Laws.antt =====
-- What the rounding divisions return.
use perpcity_rust_sdk.Base.Division.{div_bounds}
use perpcity_rust_sdk.Base.{
  ℕ, suc, ◌+◌, ◌-◌, ◌*◌, ◌≤◌, ◌<◌, ◌≡◌, ◌↔◌, ◌⊎◌, subst, if◌then◌else◌, arith,
}
use native.Mathlib.Nat.{div-lt_iff_lt-mul, div-div-eq-div-mul}
use perpcity_rust_sdk.Base.Int.{ℤ, pos, neg, abs}
use perpcity_rust_sdk.Base.Result.{ok, err, overflow, >>=-eq-ok}
use perpcity_rust_sdk.Math.FixedPoint.{
  Rounding, toward_zero, up, ceil_div, round_div, mul_div, u256_mod, same_sign, magnitude_rounding,
  s_full_mul_div, to_i256,
}

-- The ceiling of a quotient.
pub ceil_div_bounds : (n d : ℕ) → 0 < d → (n ≤ ceil_div n d * d) × (ceil_div n d * d < n + d)
ceil_div_bounds n d h = let (a, b) = div_bounds (n + (d - 1)) d h in (omega arith, omega arith)

-- The ceiling is the least number whose product reaches the dividend.
pub ceil_div-le_iff : (n d q : ℕ) → 0 < d → (ceil_div n d ≤ q) ↔ (n ≤ q * d)
ceil_div-le_iff n d q h = (
  λ k. grind (arith, (ceil_div_bounds n d h).0),
  λ k. suc_le ((div-lt_iff_lt-mul {k = d} {x = n + (d - 1)} {y = suc q} h).1 (omega arith)),
)
  where
    suc_le : {a b : ℕ} → a < suc b → a ≤ b
    suc_le k = omega arith

le_antisymm_by : (a b : ℕ) → ((q : ℕ) → (a ≤ q) ↔ (b ≤ q)) → a ≡ b
le_antisymm_by a b h = omega (arith, (h b).1 (omega arith), (h a).0 (omega arith))

-- Rounding up twice is rounding up once.
pub ceil_div-ceil_div : (n a b : ℕ) → 0 < a → 0 < b → ceil_div (ceil_div n a) b ≡ ceil_div n (a * b)
ceil_div-ceil_div n a b ha hb = le_antisymm_by _ _ (λ q. (
  λ h.
      (ceil_div-le_iff n (a * b) q (grind arith)).1
        (omega (arith, (ceil_div-le_iff n a (q * b) ha).0 ((ceil_div-le_iff _ b q hb).0 h))),
  λ h. (ceil_div-le_iff _ b q hb).1 (
      (ceil_div-le_iff n a (q * b) ha).1
        (omega (arith, (ceil_div-le_iff n (a * b) q (grind arith)).0 h))),
))

-- The bounds of a rounded quotient, by the rounding.
abbrev pub IsRounded : Rounding → ℕ → ℕ → ℕ → Type 0
IsRounded toward_zero n d q = (q * d ≤ n) × (n < q * d + d)
IsRounded up n d q = (n ≤ q * d) × (q * d < n + d)

pub round_div-IsRounded : (n d : ℕ) (r : Rounding) → 0 < d → IsRounded r n d (round_div n d r)
unfolding round_div
round_div-IsRounded n d toward_zero h = div_bounds n d h
round_div-IsRounded n d up h = ceil_div_bounds n d h

-- Two roundings by one direction are one rounding by the product.
pub round_div-round_div :
    (n a b : ℕ) (r : Rounding)
    → 0 < a
    → 0 < b
    → round_div (round_div n a r) b r ≡ round_div n (a * b) r
unfolding round_div
round_div-round_div n a b toward_zero ha hb = div-div-eq-div-mul n a b
round_div-round_div n a b up ha hb = ceil_div-ceil_div n a b ha hb

-- `mul_div` returns the exact product over the divisor, rounded in the direction asked for; it fails
-- exactly where the divisor is zero or the rounded quotient is no U256.
pub mul_div-exact :
    (a b d : ℕ) (r : Rounding)
    → ((q : ℕ) → mul_div a b d r ≡ ok q → (0 < d) × IsRounded r (a * b) d q × (q < u256_mod))
      × ((mul_div a b d r ≡ err overflow) ↔ ((d ≡ 0) ⊎ (u256_mod ≤ round_div (a * b) d r)))
unfolding mul_div
mul_div-exact a b d r = (value, (fails, λ h. ground arith))
  where
    rounded : (q : ℕ) → 0 < d → round_div (a * b) d r ≡ q → IsRounded r (a * b) d q
    rounded q h e = subst (IsRounded r (a * b) d) e (round_div-IsRounded (a * b) d r h)

    value : (q : ℕ) → mul_div a b d r ≡ ok q → (0 < d) × IsRounded r (a * b) d q × (q < u256_mod)
    value q h = (ground arith, rounded q (ground arith) (ground arith), ground arith)

    fails : mul_div a b d r ≡ err overflow → (d ≡ 0) ⊎ (u256_mod ≤ round_div (a * b) d r)
    fails h = ground arith

-- `s_full_mul_div` returns the exact product over the divisor. Where the operands' signs agree it is
-- the magnitude's quotient, rounded as asked; where they differ it is the negated quotient, rounded
-- toward zero whatever was asked, which is upwards too.
pub s_full_mul_div-exact :
    (a b : ℤ) (d : ℕ) (r : Rounding) (m : ℤ)
    → s_full_mul_div a b d r ≡ ok m
    → (q : ℕ) × (0 < d)
      × IsRounded (magnitude_rounding r (same_sign a b)) (abs a * abs b) d q
      × (m ≡ (if same_sign a b then pos q else neg (pos q)))
unfolding s_full_mul_div to_i256
s_full_mul_div-exact a b d r m h =
    let same = same_sign a b in
    let (q, hq, rest) =
      >>=-eq-ok (mul_div (abs a) (abs b) d (magnitude_rounding r (same_sign a b))) _ h in
    let (pos_q, rounded, small) = (mul_div-exact (abs a) (abs b) d _).0 q hq in
    (q, pos_q, rounded, ground arith)
