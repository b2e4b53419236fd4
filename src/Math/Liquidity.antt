-- ===== src/Math/Liquidity.antt =====
-- Liquidity sizing and the amounts of a band: src/math/liquidity.rs. The binary64 sizing by a target
-- ratio is left out. Subtraction of U256 wraps.
pub mod Sizing
pub mod Amounts
pub mod Change
use perpcity_rust_sdk.Base.{
  ℕ, ◌+◌, ◌-◌, ◌*◌, ◌/◌, ◌%◌, ◌≡◌, min, max, Bool, true, false, ltb, leb, ◌==◌, ◌||◌, if◌then◌else◌,
}
use perpcity_rust_sdk.Base.Int.{ℤ, pos, neg, abs, is_neg, ltb_ℤ}
use perpcity_rust_sdk.Base.Word.{u128_mod}
use perpcity_rust_sdk.Base.Result.{Result, ok, err, overflow, invalid_price, invalid_margin, ◌>>=◌}
use perpcity_rust_sdk.Math.FixedPoint.{Rounding, toward_zero, up, mul_div, u256_mod}
use perpcity_rust_sdk.Math.Amounts.{q96, i128_half, amount0_delta, amount1_delta}
use perpcity_rust_sdk.Math.Range.{TickRange, MakerBand, sqrt_bounds}

-- `a - b` of U256.
abbrev pub wrapping_sub : ℕ → ℕ → ℕ
wrapping_sub a b = (a + u256_mod - b) % u256_mod

-- `u128::try_from`, in `LUnits::try_from`, `UsdcAtoms::try_from` and `narrow`.
unfoldable pub narrow : ℕ → Result ℕ
narrow amount = if ltb amount u128_mod then ok amount else err overflow

unfoldable pub estimate_liquidity : TickRange → ℕ → Result ℕ
unfolding narrow
estimate_liquidity range usd =
    if usd == 0
    then err invalid_margin
    else (sqrt_bounds range >>= λ s.
        let delta = wrapping_sub s.1 s.0 in
        if delta == 0 then err overflow else narrow (usd * q96 / delta))

unfoldable pub margin_for_liquidity : TickRange → ℕ → Result ℕ
unfolding narrow
margin_for_liquidity range liquidity =
    sqrt_bounds range >>= λ s. mul_div liquidity (wrapping_sub s.1 s.0) q96 up >>= narrow

-- The amounts below and above a price between two bounds.
unfoldable pub amounts_between : ℕ → ℕ → ℕ → ℕ → Result (ℕ × ℕ)
unfolding narrow
amounts_between sp sa sb liquidity = amount0_delta sp sb liquidity toward_zero >>= λ amount0.
    amount1_delta sa sp liquidity toward_zero >>= λ amount1.
    narrow amount0 >>= λ perps. narrow amount1 >>= λ usd. ok (perps, usd)

-- The price is clamped into the band, whose bounds may come in either order.
unfoldable pub amounts_for_liquidity : ℕ → ℕ → ℕ → ℕ → Result (ℕ × ℕ)
unfolding amounts_between
amounts_for_liquidity sqrt_price sqrt_price_a sqrt_price_b liquidity =
    let sa = min sqrt_price_a sqrt_price_b in
    let sb = max sqrt_price_a sqrt_price_b in
    if sqrt_price == 0 || sqrt_price_a == 0 || sqrt_price_b == 0
    then err invalid_price
    else amounts_between (min (max sqrt_price sa) sb) sa sb liquidity

unfoldable pub band_amounts : ℕ → MakerBand → Result (ℕ × ℕ)
unfolding amounts_for_liquidity
band_amounts sqrt_price band =
    sqrt_bounds band.range >>= λ s. amounts_for_liquidity sqrt_price s.0 s.1 band.liquidity

-- The rounding of a change: down for a removal, up for an addition.
unfoldable pub change_rounding : ℤ → Rounding
change_rounding delta = if is_neg delta then toward_zero else up

unfoldable pub signed_leg : ℕ → ℤ → Result ℤ
signed_leg amount delta =
    if ltb amount i128_half
    then ok (if is_neg delta then pos amount else neg (pos amount))
    else err overflow

unfoldable pub amount0_change : ℕ → ℕ → ℤ → Result ℤ
unfolding change_rounding signed_leg
amount0_change a b delta =
    amount0_delta a b (abs delta) (change_rounding delta) >>= λ x. signed_leg x delta

unfoldable pub amount1_change : ℕ → ℕ → ℤ → Result ℤ
unfolding change_rounding signed_leg
amount1_change a b delta =
    amount1_delta a b (abs delta) (change_rounding delta) >>= λ x. signed_leg x delta

-- The legs that move, after the bounds are known.
unfoldable pub change_legs : ℕ → ℤ → TickRange → ℕ → ℕ → ℤ → Result (ℤ × ℤ)
unfolding amount0_change amount1_change
change_legs sp tick range sa sb delta =
    if ltb_ℤ tick range.lower
    then (amount0_change sa sb delta >>= λ perp. ok (perp, pos 0))
    else (if ltb_ℤ tick range.upper
        then (amount0_change sp sb delta >>= λ perp.
            amount1_change sa sp delta >>= λ usd. ok (perp, usd))
        else (amount1_change sa sb delta >>= λ usd. ok (pos 0, usd)))

unfoldable pub liquidity_change_delta : ℕ → ℤ → TickRange → ℤ → Result (ℤ × ℤ)
unfolding change_legs
liquidity_change_delta sqrt_price tick range delta =
    if sqrt_price == 0
    then err invalid_price
    else (sqrt_bounds range >>= λ s. change_legs sqrt_price tick range s.0 s.1 delta)
