-- ===== src/Math/Pricing.antt =====
-- The moving averages and the fair price: src/math/pricing.rs. The binary64 twin is left out.
pub mod Laws
pub mod Advance
mod Tests
use Prim.Native.Nat.{bit_and, bit_xor}
use perpcity_rust_sdk.Base.{
  ℕ, ◌+◌, ◌-◌, ◌*◌, ◌/◌, ◌%◌, min, max, Option, some, none, Bool, ltb, leb, ◌==◌, if◌then◌else◌,
}
use perpcity_rust_sdk.Base.Int.{ℤ, pos, neg}
use perpcity_rust_sdk.Base.Word.{u128_mod}
use perpcity_rust_sdk.Base.Result.{Result, ok, err, invalid_config, ◌>>=◌}
use perpcity_rust_sdk.Math.FixedPoint.{to_i256, u256_mod}
use perpcity_rust_sdk.Math.FixedPoint.Exp.{exp_wad}
use perpcity_rust_sdk.Math.Liquidity.{narrow, wrapping_sub}

abbrev pub wad : ℕ
wad = 1000000000000000000

pub record PricePair : Type 0 where
  pub amm : ℕ
  pub index : ℕ

unfoldable pub try_from_x96 : ℕ → ℕ → Result PricePair
unfolding narrow
try_from_x96 amm index =
    narrow amm >>= λ a. narrow index >>= λ i. ok (record { amm = a; index = i })

-- The average of a stored and a spot price; `none` where the source panics on a word too wide.
unfoldable pub weighted : ℕ → ℕ → ℕ → Option ℕ
weighted stored spot alpha =
    let sum = (stored * alpha + spot * wrapping_sub wad alpha) % u256_mod / wad in
    if ltb sum u128_mod then some sum else none

unfoldable pub weigh_pair : PricePair → PricePair → ℕ → Option PricePair
unfolding weighted
weigh_pair stored spot alpha = elim (weighted stored.amm spot.amm alpha) [
  | none ↦ none
  | some amm ↦ elim (weighted stored.index spot.index alpha) [
    | none ↦ none
    | some index ↦ some (record { amm = amm; index = index })
  ]
]

unfoldable pub calculate_emas : PricePair → PricePair → ℕ → ℕ → ℕ → Result (Option PricePair)
unfolding to_i256 exp_wad weigh_pair
calculate_emas stored spot last_touch timestamp ema_window =
    if leb timestamp last_touch
    then ok (some stored)
    else if ema_window == 0
    then err invalid_config
    else (to_i256 ((timestamp - last_touch) * wad / ema_window) >>= λ ratio.
        exp_wad (neg ratio) >>= λ alpha. ok (weigh_pair stored spot alpha))

unfoldable pub avg : ℕ → ℕ → ℕ
avg a b = bit_and a b + bit_xor a b / 2

unfoldable pub fair_price : ℕ → ℕ → ℕ → ℕ → ℕ
unfolding avg
fair_price pool_price index ema_pool_price ema_index =
    avg pool_price (min (index + ema_pool_price) (u256_mod - 1) - ema_index)

pub record Emas : Type 0 where
  pub amm_price : ℕ
  pub index : ℕ
  pub last_touch : ℕ

unfoldable pub stored : PricePair → ℕ → Emas
stored pair last_touch = record {
  amm_price = pair.amm;
  index = pair.index;
  last_touch = last_touch;
}

unfoldable pub pair : Emas → Result PricePair
unfolding try_from_x96
pair e = try_from_x96 e.amm_price e.index

-- The last step of `advanced`; a panic stays one.
unfoldable pub stored_at : ℕ → Option PricePair → Option Emas
unfolding stored
stored_at last_touch none = none
stored_at last_touch (some p) = some (stored p last_touch)

unfoldable pub advanced : Emas → ℕ → ℕ → ℕ → ℕ → Result (Option Emas)
unfolding try_from_x96 pair calculate_emas stored_at
advanced e pool_price index timestamp ema_window = try_from_x96 pool_price index >>= λ spot.
    pair e >>= λ own. calculate_emas own spot e.last_touch timestamp ema_window >>= λ emas.
    ok (stored_at (max timestamp e.last_touch) emas)

unfoldable pub marked : ℕ → ℕ → Option Emas → Option ℕ
unfolding fair_price
marked pool_price index none = none
marked pool_price index (some e) = some (fair_price pool_price index e.amm_price e.index)

unfoldable pub mark : Emas → ℕ → ℕ → ℕ → ℕ → Result (Option ℕ)
unfolding advanced marked
mark e pool_price index timestamp ema_window =
    advanced e pool_price index timestamp ema_window >>= λ emas. ok (marked pool_price index emas)
