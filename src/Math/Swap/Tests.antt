-- ===== src/Math/Swap/Tests.antt =====
-- A sale that fills and a sale that crosses a tick, over a pool with one position between two ticks.
use perpcity_rust_sdk.Base.{◌≤◌, ◌≡◌, ◌↔◌, refl, some, [], ◌∷◌, true, false, arith}
use perpcity_rust_sdk.Base.Int.{pos, negsuc, ◌+ℤ◌, ◌-ℤ◌, neg}
use perpcity_rust_sdk.Base.Result.{Result, ok}
use perpcity_rust_sdk.Math.FixedPoint.{mul_div, round_div, u512_to_u256}
use perpcity_rust_sdk.Math.Tick.{
  get_sqrt_ratio_at_tick, get_tick_at_sqrt_ratio, search, apply_bits, apply_bit, finish_ratio,
  mul_shift_128,
}
use perpcity_rust_sdk.Math.Amounts.{
  amount0_delta, amount1_delta, next_sqrt_from_amount0, sqrt_denominator, u256_to_i128,
}
use perpcity_rust_sdk.Math.Swap.Ticks.{
  Ticks, get_tick, negated, checked_add_signed, last_at_most, first_above,
}
use perpcity_rust_sdk.Math.Swap.Simulation.{
  PoolSnapshot, Simulation, simulate, walk, round, cross, swap_step, move_price, next_tick_of,
  target_of, finish_walk,
}
use perpcity_rust_sdk.Math.Swap.Accounting.{replay}
use perpcity_rust_sdk.Math.Swap.Fills.{OnSide, simulate-fills, simulate-replays}
use perpcity_rust_sdk.Math.Swap.Termination.{simulate-ends}

abbrev ticks : Ticks
ticks =
    (negsuc 59, record { gross = 1000000; net = pos 1000000 })
    ∷ (pos 60, record { gross = 1000000; net = negsuc 999999 })
    ∷ []

abbrev pool : PoolSnapshot
pool = record {
  block = 1;
  sqrt_price = 79228162514264337593543950336;
  tick = pos 0;
  liquidity = 1000000;
  ticks = ticks;
  protocol_sqrt_min = 4295128740;
  protocol_sqrt_max = 1461446703485210103287273052203988822378723970341;
  impact_sqrt_min = 4295128740;
  impact_sqrt_max = 1461446703485210103287273052203988822378723970341;
}

-- A thousand units fill inside the position.
abbrev sale : Simulation
sale = record {
  perp_delta = negsuc 999;
  usd_delta = pos 999;
  sqrt_after = 79149013500763574019524425911;
  tick_after = negsuc 19;
  liquidity_after = 1000000;
  crossed = [];
  fully_filled = true;
  hit_limit = false;
}

-- Five thousand units leave the position by its lower tick, to the limit.
abbrev large : Simulation
large = record {
  perp_delta = negsuc 3004;
  usd_delta = pos 2995;
  sqrt_after = 78833030112140176575862854579;
  tick_after = negsuc 99;
  liquidity_after = 0;
  crossed = negsuc 59 ∷ [];
  fully_filled = false;
  hit_limit = true;
}

sale_run : simulate pool (negsuc 999) 4295128740 ≡ some (ok sale)
unfolding simulate walk round cross swap_step move_price next_tick_of target_of finish_walk get_tick
    negated checked_add_signed last_at_most first_above amount0_delta amount1_delta
    next_sqrt_from_amount0 sqrt_denominator u256_to_i128 mul_div round_div u512_to_u256
    get_sqrt_ratio_at_tick get_tick_at_sqrt_ratio search apply_bits apply_bit finish_ratio
    mul_shift_128 ◌+ℤ◌ ◌-ℤ◌ neg
sale_run = refl

large_run : simulate pool (negsuc 4999) 78833030112140176575862854579 ≡ some (ok large)
unfolding simulate walk round cross swap_step move_price next_tick_of target_of finish_walk get_tick
    negated checked_add_signed last_at_most first_above amount0_delta amount1_delta
    next_sqrt_from_amount0 sqrt_denominator u256_to_i128 mul_div round_div u512_to_u256
    get_sqrt_ratio_at_tick get_tick_at_sqrt_ratio search apply_bits apply_bit finish_ratio
    mul_shift_128 ◌+ℤ◌ ◌-ℤ◌ neg
large_run = refl

simulate-fills_example :
    OnSide (negsuc 4999) large × (3005 ≤ 5000) × ((false ≡ true) ↔ (negsuc 3004 ≡ negsuc 4999))
simulate-fills_example =
    simulate-fills pool (negsuc 4999) 78833030112140176575862854579 large (omega arith) large_run

simulate-replays_example : replay ticks true 1000000 (negsuc 59 ∷ []) ≡ ok 0
simulate-replays_example =
    simulate-replays pool (negsuc 4999) 78833030112140176575862854579 large large_run

simulate-ends_example :
    (r : Result Simulation) × (simulate pool (negsuc 4999) 78833030112140176575862854579 ≡ some r)
simulate-ends_example =
    simulate-ends pool (negsuc 4999) 78833030112140176575862854579
      ((omega arith, omega arith), ((omega arith, omega arith), tt))
