-- ===== src/Math/Tests.antt =====
-- The arithmetic at concrete prices, ticks and amounts.
use perpcity_rust_sdk.Base.{ℕ, ◌<◌, ◌≤◌, ◌≡◌, refl, true, false, arith}
use perpcity_rust_sdk.Base.Int.{ℤ, pos, negsuc, ◌+ℤ◌, ◌≤ℤ◌, neg}
use perpcity_rust_sdk.Base.Result.{ok}
use perpcity_rust_sdk.Math.FixedPoint.{
  toward_zero, up, round_div, mul_div, u512_to_u256, s_full_mul_div, to_i256,
}
use perpcity_rust_sdk.Math.Tick.{
  min_tick, max_tick, mul_shift_128, get_sqrt_ratio_at_tick, get_tick_at_sqrt_ratio, apply_bits,
  finish_ratio, apply_bit,
}
use perpcity_rust_sdk.Math.Tick.Reference.{reference, get_sqrt_ratio_at_tick-eq-reference}
use perpcity_rust_sdk.Math.Tick.Search.{Brackets, get_tick_at_sqrt_ratio-Brackets}
use perpcity_rust_sdk.Math.Amounts.{q96, amount0_delta, next_sqrt_from_amount0, sqrt_denominator}
use perpcity_rust_sdk.Math.Amounts.Favour.{sell_favours_pool, buy_favours_pool}

ratio_zero : get_sqrt_ratio_at_tick (pos 0) ≡ ok 79228162514264337593543950336
unfolding get_sqrt_ratio_at_tick apply_bits apply_bit finish_ratio mul_shift_128
ratio_zero = refl

ratio_lowest : get_sqrt_ratio_at_tick min_tick ≡ ok 4295128739
unfolding get_sqrt_ratio_at_tick apply_bits apply_bit finish_ratio mul_shift_128
ratio_lowest = refl

ratio_highest :
    get_sqrt_ratio_at_tick max_tick ≡ ok 1461446703485210103287273052203988822378723970342
unfolding get_sqrt_ratio_at_tick apply_bits apply_bit finish_ratio mul_shift_128
ratio_highest = refl

get_sqrt_ratio_at_tick-eq-reference_example :
    get_sqrt_ratio_at_tick (negsuc 59) ≡ reference (negsuc 59)
get_sqrt_ratio_at_tick-eq-reference_example = get_sqrt_ratio_at_tick-eq-reference (negsuc 59)

get_tick_at_sqrt_ratio-Brackets_example :
    (t : ℤ) × (get_tick_at_sqrt_ratio q96 ≡ ok t)
    × Brackets get_sqrt_ratio_at_tick q96 t
    × (min_tick ≤ℤ t)
    × (t +ℤ pos 1 ≤ℤ max_tick)
get_tick_at_sqrt_ratio-Brackets_example =
    (get_tick_at_sqrt_ratio-Brackets 4295128739 1461446703485210103287273052203988822378723970342
        q96 ratio_lowest ratio_highest).0
      (omega arith) (omega arith)

rounded_up : mul_div 10 10 3 up ≡ ok 34
unfolding mul_div u512_to_u256 round_div
rounded_up = refl

signed : s_full_mul_div (negsuc 9) (pos 10) 3 up ≡ ok (negsuc 32)
unfolding s_full_mul_div mul_div u512_to_u256 round_div to_i256 neg
signed = refl

sold : next_sqrt_from_amount0 q96 1000 1000 true ≡ ok 39614081257132168796771975168
unfolding next_sqrt_from_amount0 sqrt_denominator u512_to_u256
sold = refl

sell_favours_pool_example :
    (0 < 39614081257132168796771975168)
    × (39614081257132168796771975168 ≤ q96)
    × ((taken : ℕ) × (amount0_delta 39614081257132168796771975168 q96 1000 up ≡ ok taken)
        × (taken ≤ 1000))
sell_favours_pool_example =
    sell_favours_pool q96 1000 1000 39614081257132168796771975168 (omega arith) (omega arith)
      (omega arith) (omega arith) sold

bought : next_sqrt_from_amount0 q96 1000 500 false ≡ ok 158456325028528675187087900672
unfolding next_sqrt_from_amount0 sqrt_denominator u512_to_u256
bought = refl

buy_favours_pool_example :
    (q96 ≤ 158456325028528675187087900672)
    × ((given : ℕ) × (amount0_delta q96 158456325028528675187087900672 1000 toward_zero ≡ ok given)
        × (500 ≤ given))
buy_favours_pool_example =
    buy_favours_pool q96 1000 500 158456325028528675187087900672 (omega arith) (omega arith)
      (omega arith) (omega arith) bought
