-- ===== src/Math/Range.antt =====
-- Tick ranges and maker bands: src/math/range.rs. `between` and `geomean`, which go through prices,
-- take the ticks and the square-root prices instead.
pub mod Bounds
use perpcity_rust_sdk.Base.{ℕ, ◌+◌, ◌*◌, ◌/◌, ◌≡◌, Bool, true, false, ◌&&◌, ◌||◌, if◌then◌else◌}
use perpcity_rust_sdk.Base.Int.{ℤ, pos, negsuc, ◌-ℤ◌, ltb_ℤ, leb_ℤ, eq_ℤ, ◌<ℤ◌, ◌≤ℤ◌}
use perpcity_rust_sdk.Base.Result.{Result, ok, err, invalid_tick_range, ◌>>=◌}
use perpcity_rust_sdk.Math.Tick.{get_sqrt_ratio_at_tick, align_tick_down, align_tick_up}
use perpcity_rust_sdk.Math.Amounts.{q96}

-- `MIN_TICK`, `MAX_TICK` and `TICK_SPACING` of src/constants.rs
abbrev pub lowest_tick : ℤ
lowest_tick = negsuc 138179

abbrev pub highest_tick : ℤ
highest_tick = pos 138180

abbrev pub tick_spacing : ℕ
tick_spacing = 30

pub record TickRange : Type 0 where
  pub lower : ℤ
  pub upper : ℤ

pub record MakerBand : Type 0 where
  pub range : TickRange
  pub liquidity : ℕ

unfoldable pub new_range : ℤ → ℤ → Result TickRange
new_range lower upper =
    if leb_ℤ upper lower || ltb_ℤ lower lowest_tick || ltb_ℤ highest_tick upper
    then err (invalid_tick_range lower upper)
    else ok (record { lower = lower; upper = upper })

-- `between` after the prices' ticks are known.
unfoldable pub between_ticks : ℤ → ℤ → Result TickRange
unfolding new_range
between_ticks lower upper =
    new_range (align_tick_down lower tick_spacing) (align_tick_up upper tick_spacing)

unfoldable pub contains : TickRange → ℤ → Bool
contains r tick = leb_ℤ r.lower tick && ltb_ℤ tick r.upper

unfoldable pub is_boundary : TickRange → ℤ → Bool
is_boundary r tick = eq_ℤ tick r.lower || eq_ℤ tick r.upper

unfoldable pub width : TickRange → ℤ
width r = r.upper -ℤ r.lower

-- The source panics where this is an error, which no valid range reaches.
unfoldable pub sqrt_bounds : TickRange → Result (ℕ × ℕ)
sqrt_bounds r =
    get_sqrt_ratio_at_tick r.lower >>= λ a. get_sqrt_ratio_at_tick r.upper >>= λ b. ok (a, b)

-- `geomean`, with the range's square-root prices.
unfoldable pub geomean_of : ℕ → ℕ → ℕ
geomean_of lo hi = lo * hi / q96
