-- ===== src/Math/Swap/Simulation.antt =====
-- The loop of `PoolSnapshot::simulate`. The sums and differences of a U256 wrap.
use perpcity_rust_sdk.Base.{
  ℕ, zero, suc, ◌+◌, ◌%◌, min, max, Option, some, none, List, [], ◌∷◌, ◌++◌, Bool, true, false, leb,
  ◌==◌, ◌&&◌, ◌||◌, not, if◌then◌else◌, length,
}
use perpcity_rust_sdk.Base.Int.{ℤ, pos, ◌-ℤ◌, neg, abs, is_neg}
use perpcity_rust_sdk.Base.Result.{Result, ok, err, ◌>>=◌}
use perpcity_rust_sdk.Math.FixedPoint.{toward_zero, up, u256_mod}
use perpcity_rust_sdk.Math.Tick.{min_tick, max_tick, get_sqrt_ratio_at_tick, get_tick_at_sqrt_ratio}
use perpcity_rust_sdk.Math.Amounts.{
  amount0_delta, amount1_delta, next_sqrt_from_amount0, u256_to_i128,
}
use perpcity_rust_sdk.Math.Liquidity.{wrapping_sub}
use perpcity_rust_sdk.Math.Swap.Ticks.{
  Ticks, checked_add_signed, negated, get_tick, last_at_most, first_above,
}

pub record PoolSnapshot : Type 0 where
  pub block : ℕ
  pub sqrt_price : ℕ
  pub tick : ℤ
  pub liquidity : ℕ
  pub ticks : Ticks
  pub protocol_sqrt_min : ℕ
  pub protocol_sqrt_max : ℕ
  pub impact_sqrt_min : ℕ
  pub impact_sqrt_max : ℕ

pub record StepResult : Type 0 where
  pub sqrt_after : ℕ
  pub used : ℕ
  pub other : ℕ

pub record Simulation : Type 0 where
  pub perp_delta : ℤ
  pub usd_delta : ℤ
  pub sqrt_after : ℕ
  pub tick_after : ℤ
  pub liquidity_after : ℕ
  pub crossed : List ℤ
  pub fully_filled : Bool
  pub hit_limit : Bool

-- The variables of the loop.
pub record Walk : Type 0 where
  pub remaining : ℕ
  pub calculated : ℕ
  pub sqrt : ℕ
  pub tick : ℤ
  pub liquidity : ℕ
  pub crossed : List ℤ

-- The tick that the price moves towards: the next initialized one, or the end of the range.
unfoldable pub next_tick_of : Bool → ℤ → Ticks → ℤ
unfolding last_at_most first_above
next_tick_of true tick ticks = elim (last_at_most tick ticks) [ none ↦ min_tick | some t ↦ t ]
next_tick_of false tick ticks = elim (first_above tick ticks) [ none ↦ max_tick | some t ↦ t ]

unfoldable pub target_of : Bool → ℕ → ℕ → ℕ
target_of true sqrt_next sqrt_limit = max sqrt_next sqrt_limit
target_of false sqrt_next sqrt_limit = min sqrt_next sqrt_limit

-- The step to a target with liquidity, the token0 side exact.
unfoldable pub move_price : Bool → ℕ → ℕ → ℕ → ℕ → Result StepResult
move_price true target sqrt l remaining = amount0_delta target sqrt l up >>= λ to_target.
    elim (leb to_target remaining) [
      | true ↦ amount1_delta target sqrt l toward_zero >>= λ other.
          ok (record { sqrt_after = target; used = to_target; other = other })
      | false ↦ next_sqrt_from_amount0 sqrt l remaining true >>= λ after.
          amount1_delta after sqrt l toward_zero >>= λ other.
          ok (record { sqrt_after = after; used = remaining; other = other })
    ]
move_price false target sqrt l remaining = amount0_delta sqrt target l toward_zero >>= λ to_target.
    elim (leb to_target remaining) [
      | true ↦ amount1_delta sqrt target l up >>= λ other.
          ok (record { sqrt_after = target; used = to_target; other = other })
      | false ↦ next_sqrt_from_amount0 sqrt l remaining false >>= λ after.
          amount1_delta sqrt after l up >>= λ other.
          ok (record { sqrt_after = after; used = remaining; other = other })
    ]

unfoldable pub swap_step : Bool → ℕ → ℕ → ℕ → ℕ → Result StepResult
unfolding move_price
swap_step zero_for_one target sqrt l remaining =
    if l == 0
    then ok (record { sqrt_after = target; used = 0; other = 0 })
    else move_price zero_for_one target sqrt l remaining

-- The part of a round after the amounts are known: whether a tick was crossed, and the new state.
unfoldable pub cross : Ticks → Bool → ℤ → ℕ → ℕ → Walk → Result (Bool × Walk)
unfolding get_tick negated checked_add_signed
cross ticks zero_for_one next_tick sqrt_next start w =
    if w.sqrt == sqrt_next
    then (let tick' = if zero_for_one then next_tick -ℤ pos 1 else next_tick in
        elim (get_tick next_tick ticks) [
          | none ↦ ok (false, record w { tick = tick' })
          | some info ↦ (if zero_for_one then negated info.net else ok info.net) >>= λ net.
              checked_add_signed w.liquidity net >>= λ l. ok (
                true,
                record w { liquidity = l; crossed = w.crossed ++ next_tick ∷ []; tick = tick' },
              )
        ])
    else (if w.sqrt == start
        then ok (false, w)
        else (get_tick_at_sqrt_ratio w.sqrt >>= λ t. ok (false, record w { tick = t })))

-- One round of the loop: whether it breaks, and the state after it.
unfoldable pub round : Ticks → Bool → ℕ → Walk → Result (Bool × Walk)
unfolding next_tick_of target_of swap_step cross
round ticks zero_for_one sqrt_limit w =
    let next_tick = next_tick_of zero_for_one w.tick ticks in
    get_sqrt_ratio_at_tick next_tick >>= λ sqrt_next.
    swap_step zero_for_one (target_of zero_for_one sqrt_next sqrt_limit) w.sqrt w.liquidity
      w.remaining
    >>= λ s.
        cross ticks zero_for_one next_tick sqrt_next w.sqrt (record w {
          remaining = wrapping_sub w.remaining s.used;
          calculated = (w.calculated + s.other) % u256_mod;
          sqrt = s.sqrt_after;
        })
        >>= λ c. ok (s.used == 0 && s.other == 0 && s.sqrt_after == w.sqrt && not c.0, c.1)

-- The loop, on fuel: `none` where it runs out.
unfoldable pub walk : Ticks → Bool → ℕ → ℕ → Walk → Option (Result Walk)
walk ticks zero_for_one sqrt_limit zero w = none
walk ticks zero_for_one sqrt_limit (suc fuel) w = elim (w.remaining == 0 || w.sqrt == sqrt_limit) [
  | true ↦ some (ok w)
  | false ↦ elim (round ticks zero_for_one sqrt_limit w) [
    | err e ↦ some (err e)
    | ok (true, w') ↦ some (ok w')
    | ok (false, w') ↦ walk ticks zero_for_one sqrt_limit fuel w'
  ]
]

abbrev pub start_walk : PoolSnapshot → ℤ → Walk
start_walk p requested = record {
  remaining = abs requested;
  calculated = 0;
  sqrt = p.sqrt_price;
  tick = p.tick;
  liquidity = p.liquidity;
  crossed = [];
}

-- What follows the loop.
unfoldable pub finish_walk : ℤ → ℕ → Walk → Result Simulation
finish_walk requested sqrt_limit w =
    let zero_for_one = is_neg requested in
    u256_to_i128 (wrapping_sub (abs requested) w.remaining) >>= λ filled.
    u256_to_i128 w.calculated >>= λ usd. ok (record {
      perp_delta = if zero_for_one then neg (pos filled) else pos filled;
      usd_delta = if zero_for_one then pos usd else neg (pos usd);
      sqrt_after = w.sqrt;
      tick_after = w.tick;
      liquidity_after = w.liquidity;
      crossed = w.crossed;
      fully_filled = w.remaining == 0;
      hit_limit = w.sqrt == sqrt_limit;
    })

-- Enough fuel: a round for each initialized tick, and four more.
unfoldable pub simulate : PoolSnapshot → ℤ → ℕ → Option (Result Simulation)
unfolding finish_walk
simulate p requested sqrt_limit =
    elim (walk p.ticks (is_neg requested) sqrt_limit (length p.ticks + 4)
      (start_walk p requested)) [
        | none ↦ none
        | some r ↦ some (r >>= finish_walk requested sqrt_limit)
      ]
