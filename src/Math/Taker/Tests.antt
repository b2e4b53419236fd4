-- ===== src/Math/Taker/Tests.antt =====
-- The health of a taker at concrete inputs.
use perpcity_rust_sdk.Base.{ℕ, ◌≡◌, ◌≢◌, refl, some, none, true, false, arith}
use perpcity_rust_sdk.Base.Int.{pos, negsuc, ◌+ℤ◌, ◌-ℤ◌, is_neg}
use perpcity_rust_sdk.Math.FixedPoint.{
  sub_u, sub_i, mul_div, s_full_mul_div, to_i256, round_div, u512_to_u256, add_i,
}
use perpcity_rust_sdk.Math.Liquidity.{narrow}
use perpcity_rust_sdk.Math.Taker.{
  TakerMarketSnapshot, TakerState, taker_health, util_owed_of, TakerHealth, is_liquidatable,
  is_liquidatable_at, liquidation_mark, liquidation_prices, liquidatable_at, fixed_part,
  settled_margin, wrap_i128, is_healthy, usdc_delta, equity, turn_prices,
}
use perpcity_rust_sdk.Base.Result.{ok}
use perpcity_rust_sdk.Math.Taker.Agreement.{taker_health-agrees}
use perpcity_rust_sdk.Math.Taker.Search.{
  first_failing, start_of, bracket, gallop_back, gallop_out, bisect, away, toward,
}
use perpcity_rust_sdk.Math.Taker.First.{Before}
use perpcity_rust_sdk.Math.Taker.Liquidation.{
  liquidation_prices-ends, liquidation_prices-first, just_covered_long,
}

-- 40 in Q96.
abbrev forty : ℕ
forty = 3169126500570573503741758013440

-- Long 10 perps bought at 40 with 100 USDC of margin, a ratio of 5%.
abbrev long_ten : TakerHealth
long_ten = record {
  mark = forty;
  delta_perp = pos 10000000;
  delta_usd = negsuc 399999999;
  margin = 100000000;
  funding_owed = pos 0;
  util_owed = 0;
  position_value = 400000000;
  unrealized_pnl = pos 0;
  liquidation_margin_ratio = 50000;
}

at_mark : is_liquidatable_at long_ten forty ≡ some false
unfolding is_liquidatable_at liquidatable_at to_i256 s_full_mul_div mul_div narrow add_i usdc_delta
    fixed_part is_healthy settled_margin wrap_i128 ◌+ℤ◌ ◌-ℤ◌ round_div u512_to_u256
at_mark = refl

liquidation_prices-ends_example : liquidation_prices long_ten ≢ none
liquidation_prices-ends_example = liquidation_prices-ends long_ten at_mark

at_turn : liquidation_prices long_ten ≡ some (some 2501941976636605266562366987248, none)
unfolding liquidation_prices turn_prices is_liquidatable liquidation_mark is_liquidatable_at
    liquidatable_at to_i256 s_full_mul_div mul_div narrow add_i usdc_delta fixed_part is_healthy
    settled_margin wrap_i128 ◌+ℤ◌ ◌-ℤ◌ round_div u512_to_u256 equity first_failing start_of bracket
    gallop_back gallop_out bisect away toward
at_turn = refl

not_liquidatable : is_liquidatable long_ten ≡ false
unfolding is_liquidatable is_healthy equity settled_margin wrap_i128 ◌+ℤ◌ ◌-ℤ◌ mul_div round_div
    u512_to_u256
not_liquidatable = refl

liquidation_prices-first_example :
    (is_liquidatable_at long_ten 2501941976636605266562366987248 ≡ some true)
    × ((x : ℕ)
        → Before (is_neg long_ten.delta_perp) x 2501941976636605266562366987248
        → is_liquidatable_at long_ten x ≢ some true)
liquidation_prices-first_example =
    liquidation_prices-first long_ten 2501941976636605266562366987248 not_liquidatable at_turn

-- The same position, bought at 5 and at 10.
abbrev covered_ten : TakerHealth
covered_ten = record long_ten { delta_usd = negsuc 49999999 }

abbrev just_covered_ten : TakerHealth
just_covered_ten = record long_ten { delta_usd = negsuc 99999999 }

fifty : fixed_part covered_ten ≡ pos 50000000
unfolding fixed_part settled_margin wrap_i128 ◌+ℤ◌ ◌-ℤ◌
fifty = refl

zero_left : fixed_part just_covered_ten ≡ pos 0
unfolding fixed_part settled_margin wrap_i128 ◌+ℤ◌ ◌-ℤ◌
zero_left = refl

just_covered_long_example :
    (liquidation_mark just_covered_ten ≡ none) × (is_liquidatable_at just_covered_ten 0 ≡ some true)
just_covered_long_example = just_covered_long just_covered_ten refl zero_left (omega arith)

-- Funding has grown by 0.5 USDC per perp, long utilization by 0.25.
abbrev market_42 : TakerMarketSnapshot
market_42 = record {
  funding = pos 39614081257132168796771975168;
  util_payments = record { long = 19807040628566084398385987584; short = 0 };
  mark = 3327582825599102178928845914112;
}

abbrev opened_at_40 : TakerState
opened_at_40 = record {
  delta_perp = pos 10000000;
  delta_usd = negsuc 399999999;
  margin = 100000000;
  liquidation_margin_ratio = 50000;
  last_cuml_funding = pos 0;
  last_util_payments = record { long = 0; short = 0 };
}

abbrev health_at_42 : TakerHealth
health_at_42 = record long_ten {
  mark = 3327582825599102178928845914112;
  funding_owed = pos 5000000;
  util_owed = 2500000;
  position_value = 420000000;
  unrealized_pnl = pos 20000000;
}

computed : taker_health market_42 opened_at_40 ≡ ok health_at_42
unfolding taker_health util_owed_of to_i256 s_full_mul_div mul_div narrow add_i sub_i sub_u
    usdc_delta ◌+ℤ◌ ◌-ℤ◌ round_div u512_to_u256
computed = refl

answered : is_liquidatable_at health_at_42 health_at_42.mark ≡ some false
unfolding is_liquidatable_at liquidatable_at to_i256 s_full_mul_div mul_div narrow add_i usdc_delta
    fixed_part is_healthy settled_margin wrap_i128 ◌+ℤ◌ ◌-ℤ◌ round_div u512_to_u256
answered = refl

taker_health-agrees_example : false ≡ is_liquidatable health_at_42
taker_health-agrees_example =
    taker_health-agrees market_42 opened_at_40 health_at_42 false computed answered
