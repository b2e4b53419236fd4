-- ===== src/Math/Maker.antt =====
-- The accumulators of a maker's band: fee_growth_inside1 and maker_cuml_funding of
-- src/math/maker_equity.rs, and the `since` of src/units/accumulators.rs.
pub mod Accumulators
mod Tests
use perpcity_rust_sdk.Base.{ℕ, ◌+◌, ◌-◌, ◌%◌, Bool, if◌then◌else◌}
use perpcity_rust_sdk.Base.Int.{ℤ, leb_ℤ, ltb_ℤ}
use perpcity_rust_sdk.Base.Result.{Result, ok, err, ◌>>=◌}
use perpcity_rust_sdk.Math.FixedPoint.{u256_mod, sub_i}

-- `FeeGrowth::since`, which wraps.
unfoldable pub fee_since : ℕ → ℕ → ℕ
fee_since growth checkpoint = (growth + (u256_mod - checkpoint)) % u256_mod

unfoldable pub fee_growth_inside1 : ℕ → ℕ → ℕ → ℤ → ℤ → ℤ → ℕ
unfolding fee_since
fee_growth_inside1 global outside_lower outside_upper tick_lower tick_upper current_tick =
    let below =
      if leb_ℤ tick_lower current_tick then outside_lower else fee_since global outside_lower in
    let above =
      if ltb_ℤ current_tick tick_upper then outside_upper else fee_since global outside_upper in
    fee_since (fee_since global below) above

pub record TickFunding : Type 0 where
  pub cuml_funding_opp : ℤ
  pub cuml_funding_div_sqrt_p_opp : ℤ

-- What `maker_cuml_funding` reads of the snapshot and of the maker.
pub record FundingInputs : Type 0 where
  pub tick : ℤ
  pub funding : ℤ
  pub funding_div_sqrt_p : ℤ
  pub tick_lower : ℤ
  pub tick_upper : ℤ
  pub tick_lower_funding : TickFunding
  pub tick_upper_funding : TickFunding

-- The funding below a tick. `Funding::since` is `sub_i`.
unfoldable pub funding_below : FundingInputs → ℤ → TickFunding → Result (ℤ × ℤ)
unfolding sub_i
funding_below m bound at =
    if leb_ℤ bound m.tick
    then ok (at.cuml_funding_opp, at.cuml_funding_div_sqrt_p_opp)
    else (sub_i m.funding at.cuml_funding_opp >>= λ f.
        sub_i m.funding_div_sqrt_p at.cuml_funding_div_sqrt_p_opp >>= λ d. ok (f, d))

unfoldable pub maker_cuml_funding : FundingInputs → Result (ℤ × ℤ × ℤ)
unfolding funding_below sub_i
maker_cuml_funding m = funding_below m m.tick_lower m.tick_lower_funding >>= λ lower.
    funding_below m m.tick_upper m.tick_upper_funding >>= λ upper.
    sub_i upper.0 lower.0 >>= λ within.
    sub_i upper.1 lower.1 >>= λ within_div. ok (lower.0, within, within_div)
