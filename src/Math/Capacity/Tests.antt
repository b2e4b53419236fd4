-- ===== src/Math/Capacity/Tests.antt =====
-- Ranges, liquidity and capacity at concrete inputs.
use perpcity_rust_sdk.Base.{ℕ, ◌≤◌, ◌≡◌, ◌↔◌, refl, arith}
use perpcity_rust_sdk.Base.Int.{pos, negsuc, ◌+ℤ◌, ◌-ℤ◌, neg}
use perpcity_rust_sdk.Base.Result.{ok}
use perpcity_rust_sdk.Math.FixedPoint.{mul_div, round_div, u512_to_u256}
use perpcity_rust_sdk.Math.Tick.{
  get_sqrt_ratio_at_tick, apply_bits, apply_bit, finish_ratio, mul_shift_128, align_tick_down,
  align_tick_up,
}
use perpcity_rust_sdk.Math.Amounts.{q96, amount0_delta, amount1_delta}
use perpcity_rust_sdk.Math.Range.{TickRange, new_range, between_ticks, sqrt_bounds}
use perpcity_rust_sdk.Math.Range.Bounds.{IsValid}
use perpcity_rust_sdk.Math.Liquidity.{
  narrow, estimate_liquidity, margin_for_liquidity, amount0_change, amount1_change, change_legs,
  change_rounding, signed_leg, liquidity_change_delta,
}
use perpcity_rust_sdk.Math.Liquidity.Sizing.{margin-estimate_adjoint}
use perpcity_rust_sdk.Math.Liquidity.Change.{Short, change_round_trip}
use perpcity_rust_sdk.Math.Side.{longs}
use perpcity_rust_sdk.Math.Capacity.{
  PricedRange, priced, span, perp, capacity, least_liquidity, choose_liquidity,
  liquidity_for_capacity, MarketCapacity,
}
use perpcity_rust_sdk.Math.Capacity.Inverse.{IsOrdered, liquidity_for_capacity-least}

abbrev near : TickRange
near = record { lower = negsuc 599; upper = pos 600 }

-- The square-root prices of `near`.
abbrev low_ratio : ℕ
low_ratio = 76886731765546235930195592750

abbrev high_ratio : ℕ
high_ratio = 81640896826356156310682304526

near-IsValid : IsValid near
near-IsValid = record { ordered = omega arith; above = omega arith; under = omega arith }

near_bounds : sqrt_bounds near ≡ ok (low_ratio, high_ratio)
unfolding sqrt_bounds get_sqrt_ratio_at_tick apply_bits apply_bit finish_ratio mul_shift_128
near_bounds = refl

around : between_ticks (negsuc 590) (pos 599) ≡ ok near
unfolding between_ticks new_range align_tick_down align_tick_up ◌-ℤ◌ ◌+ℤ◌
around = refl

sized : estimate_liquidity near 1000000000 ≡ ok 16665000373
unfolding estimate_liquidity narrow sqrt_bounds get_sqrt_ratio_at_tick apply_bits apply_bit
    finish_ratio mul_shift_128
sized = refl

required : margin_for_liquidity near 10000000000 ≡ ok 600059993
unfolding margin_for_liquidity mul_div round_div u512_to_u256 narrow sqrt_bounds
    get_sqrt_ratio_at_tick apply_bits apply_bit finish_ratio mul_shift_128
required = refl

margin-estimate_adjoint_example : (600059993 ≤ 1000000000) ↔ (10000000000 ≤ 16665000373)
margin-estimate_adjoint_example =
    margin-estimate_adjoint near low_ratio high_ratio 1000000000 10000000000 16665000373 600059993
      near_bounds (omega arith) (omega arith) sized required

added :
    liquidity_change_delta q96 (pos 0) near (pos 1000000000000)
    ≡ ok (negsuc 29553010879, negsuc 29553010879)
unfolding liquidity_change_delta change_legs amount0_change amount1_change change_rounding
    signed_leg neg amount0_delta amount1_delta mul_div round_div u512_to_u256 sqrt_bounds
    get_sqrt_ratio_at_tick apply_bits apply_bit finish_ratio mul_shift_128
added = refl

removed :
    liquidity_change_delta q96 (pos 0) near (neg (pos 1000000000000))
    ≡ ok (pos 29553010879, pos 29553010879)
unfolding liquidity_change_delta change_legs amount0_change amount1_change change_rounding
    signed_leg neg amount0_delta amount1_delta mul_div round_div u512_to_u256 sqrt_bounds
    get_sqrt_ratio_at_tick apply_bits apply_bit finish_ratio mul_shift_128
removed = refl

change_round_trip_example :
    Short (negsuc 29553010879) (pos 29553010879) × Short (negsuc 29553010879) (pos 29553010879)
change_round_trip_example =
    change_round_trip q96 1000000000000 (pos 0) near (negsuc 29553010879) (pos 29553010879)
      (negsuc 29553010879) (pos 29553010879) (omega arith) (omega arith) added removed

abbrev near_priced : PricedRange
near_priced = record { sqrt_lower = low_ratio; sqrt_upper = high_ratio; sqrt_clamped = q96 }

priced-near : priced q96 near ≡ ok near_priced
unfolding priced sqrt_bounds get_sqrt_ratio_at_tick apply_bits apply_bit finish_ratio mul_shift_128
priced-near = refl

ordered_near : IsOrdered near_priced
ordered_near = record { positive = omega arith; below = omega arith; above = omega arith }

chosen : liquidity_for_capacity q96 near longs 1000000000 ≡ ok 33837499810
unfolding liquidity_for_capacity choose_liquidity least_liquidity span capacity perp narrow
    amount0_delta mul_div round_div u512_to_u256 priced sqrt_bounds get_sqrt_ratio_at_tick
    apply_bits apply_bit finish_ratio mul_shift_128
chosen = refl

backed : perp longs 1000000000000 near_priced ≡ ok 29553010879
unfolding perp span narrow amount0_delta mul_div round_div u512_to_u256
backed = refl

liquidity_for_capacity-least_example : (1000000000 ≤ 29553010879) ↔ (33837499810 ≤ 1000000000000)
liquidity_for_capacity-least_example =
    liquidity_for_capacity-least q96 1000000000 33837499810 near longs near_priced (omega arith)
      priced-near ordered_near chosen 1000000000000 29553010879 (omega arith) backed

abbrev half_used : MarketCapacity
half_used = record {
  capacity = record { long = 10; short = 8 };
  open_interest = record { long = 5; short = 8 };
}
