-- ===== src/Math/Capacity.antt =====
-- Taker capacity: src/math/capacity.rs. A pair of amounts is the long side's and the short side's.
pub mod Inverse
pub mod Usage
mod Tests
use perpcity_rust_sdk.Base.{
  ℕ, ◌+◌, ◌-◌, ◌*◌, ◌/◌, ◌%◌, ◌≡◌, min, max, Option, some, none, Bool, true, false, ltb, leb, ◌==◌,
  if◌then◌else◌,
}
use perpcity_rust_sdk.Base.Int.{ℤ}
use perpcity_rust_sdk.Base.Word.{u128_mod, u32_mod}
use perpcity_rust_sdk.Base.Result.{
  Result, ok, err, overflow, invalid_price, no_band_capacity, ◌>>=◌,
}
use perpcity_rust_sdk.Math.Side.{Side, longs, shorts, PerSide, on}
use perpcity_rust_sdk.Math.FixedPoint.{Rounding, toward_zero, ceil_div, mul_div}
use perpcity_rust_sdk.Math.Amounts.{q96, amount0_delta}
use perpcity_rust_sdk.Math.Range.{TickRange, MakerBand, sqrt_bounds}
use perpcity_rust_sdk.Math.Liquidity.{narrow}

-- A range's bounds with the pool price clamped into them.
pub record PricedRange : Type 0 where
  pub sqrt_lower : ℕ
  pub sqrt_upper : ℕ
  pub sqrt_clamped : ℕ

-- `PricedRange::new`
unfoldable pub priced : ℕ → TickRange → Result PricedRange
priced sqrt_price range =
    if sqrt_price == 0
    then err invalid_price
    else (sqrt_bounds range >>= λ s. ok (record {
      sqrt_lower = s.0;
      sqrt_upper = s.1;
      sqrt_clamped = min (max sqrt_price s.0) s.1;
    }))

-- The part above the price backs longs, the part below it shorts.
unfoldable pub span : Side → PricedRange → ℕ × ℕ
span longs p = (p.sqrt_clamped, p.sqrt_upper)
span shorts p = (p.sqrt_lower, p.sqrt_clamped)

unfoldable pub perp : Side → ℕ → PricedRange → Result ℕ
unfolding span narrow
perp side liquidity p =
    amount0_delta (span side p).0 (span side p).1 liquidity toward_zero >>= narrow

unfoldable pub capacity : ℕ → PricedRange → Result (PerSide ℕ)
unfolding perp
capacity liquidity p = perp longs liquidity p >>= λ l.
    perp shorts liquidity p >>= λ s. ok (record { long = l; short = s })

unfoldable pub band_capacity : ℕ → MakerBand → Result (PerSide ℕ)
unfolding priced capacity
band_capacity sqrt_price band = priced sqrt_price band.range >>= capacity band.liquidity

-- The least liquidity whose capacity reaches a target, before it is checked. Its 512-bit numbers are
-- exact.
unfoldable pub least_liquidity : ℕ → ℕ → ℕ → ℕ
least_liquidity target lo hi = ceil_div (target * hi * lo) (q96 * (hi - lo))

-- `liquidity_for_capacity` after the range is priced.
unfoldable pub choose_liquidity : ℕ → TickRange → Side → PricedRange → Result ℕ
unfolding span capacity least_liquidity
choose_liquidity target range side p =
    let l = least_liquidity target (span side p).0 (span side p).1 in
    if target == 0
    then ok 0
    else (if (span side p).0 == (span side p).1
        then err (no_band_capacity range.lower range.upper)
        else (if ltb l u128_mod then (capacity l p >>= λ _. ok l) else err overflow))

unfoldable pub liquidity_for_capacity : ℕ → TickRange → Side → ℕ → Result ℕ
unfolding priced choose_liquidity
liquidity_for_capacity sqrt_price range side target =
    priced sqrt_price range >>= choose_liquidity target range side

pub record MarketCapacity : Type 0 where
  pub capacity : PerSide ℕ
  pub open_interest : PerSide ℕ

unfoldable pub headroom : Side → MarketCapacity → ℕ
headroom side m = on side m.capacity - on side m.open_interest

-- `saturating_to` of a U256 into a u32.
unfoldable pub utilization_e6 : Side → MarketCapacity → Option ℕ
utilization_e6 side m =
    elim (mul_div (on side m.open_interest) 1000000 (on side m.capacity) toward_zero) [
      | err e ↦ none
      | ok u ↦ some (min u (u32_mod - 1))
    ]
