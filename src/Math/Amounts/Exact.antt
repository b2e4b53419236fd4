-- ===== src/Math/Amounts/Exact.antt =====
-- The amounts are the exact quotients, rounded once.
use perpcity_rust_sdk.Base.{
  ℕ, ◌-◌, ◌*◌, ◌≡◌, ◌<◌, ◌≤◌, ap, false, leb, ◌==◌, arith, Bool-cases, inl, inr, min, max, leb→le,
}
use perpcity_rust_sdk.Base.Result.{ok, err, invalid_price, ◌>>=◌}
use perpcity_rust_sdk.Base.Word.{u128_mod}
use perpcity_rust_sdk.Math.FixedPoint.{
  Rounding, toward_zero, up, round_div, mul_div, u512_to_u256, u256_mod,
}
use perpcity_rust_sdk.Base.Division.{div_bounds}
use perpcity_rust_sdk.Math.FixedPoint.Laws.{ceil_div-le_iff, round_div-round_div}
use perpcity_rust_sdk.Math.Amounts.{amount0_delta, q96}

-- A product by less than the divisor, over the divisor, is at most the other factor.
round_div-le : (n m d : ℕ) (r : Rounding) → 0 < d → m ≤ d → round_div (n * m) d r ≤ n
unfolding round_div
round_div-le n m d toward_zero h k = grind (arith, div_bounds (n * m) d h)
round_div-le n m d up h k = (ceil_div-le_iff (n * m) d n h).1 (grind arith)

mul_div_fits :
    (n m d : ℕ) (r : Rounding)
    → 0 < d
    → m ≤ d
    → n < u256_mod
    → mul_div n m d r ≡ ok (round_div (n * m) d r)
unfolding mul_div u512_to_u256
mul_div_fits n m d r h k s = ground (arith, round_div-le n m d r h k)

amount0_ordered :
    (lower upper liquidity : ℕ) (r : Rounding)
    → 0 < lower
    → lower ≤ upper
    → liquidity < u128_mod
    → (mul_div (liquidity * q96) (upper - lower) upper r >>= λ first. ok (round_div first lower r))
      ≡ ok (round_div (liquidity * q96 * (upper - lower)) (upper * lower) r)
amount0_ordered lower upper liquidity r h k s =
    rw
      (mul_div_fits (liquidity * q96) (upper - lower) upper r (omega arith) (omega arith)
        (omega arith))
      (ap ok
        (round_div-round_div (liquidity * q96 * (upper - lower)) upper lower r (omega arith) h))

-- For positive prices and a 128-bit liquidity, `amount0_delta` does not fail and does not depend on
-- the prices' order: it is liquidity · 2^96 · |a - b| / (a · b), rounded once in the direction asked
-- for though the code divides twice.
pub amount0_delta-exact :
    (a b liquidity : ℕ) (r : Rounding)
    → 0 < a
    → 0 < b
    → liquidity < u128_mod
    → amount0_delta a b liquidity r
      ≡ ok (round_div (liquidity * q96 * (max a b - min a b)) (max a b * min a b) r)
unfolding amount0_delta
amount0_delta-exact a b liquidity r ha hb s = elim (Bool-cases (leb a b)) [
  | inl c ↦
      let e : (a == 0) ≡ false = ground arith in
      let p : min a b ≡ a = omega (arith, leb→le a b c) in
      let q : max a b ≡ b = omega (arith, leb→le a b c) in
      rw (c, e, p, q, amount0_delta) (amount0_ordered a b liquidity r ha (leb→le a b c) s)
  | inr c ↦
      let e : (b == 0) ≡ false = ground arith in
      let l : b ≤ a = ground arith in
      let p : min a b ≡ b = omega arith in
      let q : max a b ≡ a = omega arith in
      rw (c, e, p, q, amount0_delta) (amount0_ordered b a liquidity r hb l s)
]

-- A zero price is refused.
pub amount0_delta-zero :
    (a liquidity : ℕ) (r : Rounding)
    → (amount0_delta 0 a liquidity r ≡ err invalid_price)
      × (amount0_delta a 0 liquidity r ≡ err invalid_price)
unfolding amount0_delta
amount0_delta-zero a liquidity r = (ground arith, ground arith)
