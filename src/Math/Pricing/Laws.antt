-- ===== src/Math/Pricing/Laws.antt =====
-- What the averages and the fair price promise.
use perpcity_rust_sdk.Base.{
  ℕ, ◌+◌, ◌-◌, ◌*◌, ◌/◌, ◌%◌, ◌≤◌, ◌<◌, ◌≡◌, sym, ap, subst, ◌∙◌, min, max, some, false, leb, ◌==◌,
  arith,
}
use perpcity_rust_sdk.Base.Bits.{bit_and-bit_xor}
use perpcity_rust_sdk.Base.Division.{div_bounds}
use perpcity_rust_sdk.Base.Int.{pos, neg}
use perpcity_rust_sdk.Base.Word.{u128_mod, u64_mod}
use perpcity_rust_sdk.Base.Result.{ok}
use perpcity_rust_sdk.Math.FixedPoint.{to_i256, u256_mod, i256_half}
use perpcity_rust_sdk.Math.FixedPoint.Exp.{exp_wad}
use perpcity_rust_sdk.Math.Liquidity.{wrapping_sub}
use perpcity_rust_sdk.Math.Pricing.{
  PricePair, wad, weighted, weigh_pair, calculate_emas, fair_price,
}

-- The fair price is the floor of half the sum of the pool price and the adjusted index, without
-- overflow: the index and the pool's average are added up to the greatest U256, and the index's
-- average is taken from that down to 0.
pub fair_price_lem :
    (pool index ema_pool ema_index : ℕ)
    → fair_price pool index ema_pool ema_index
      ≡ (pool + (min (index + ema_pool) (u256_mod - 1) - ema_index)) / 2
unfolding fair_price
fair_price_lem pool index ema_pool ema_index =
    let delta = min (index + ema_pool) (u256_mod - 1) - ema_index in
    omega (arith, bit_and-bit_xor pool delta)

-- A price between two others, or at one of them.
abbrev pub Between : ℕ → ℕ → ℕ → Type 0
Between a b x = (min a b ≤ x) × (x ≤ max a b)

distribute : (m s p : ℕ) → m * (s + p) ≡ m * s + m * p
distribute m s p = grind arith

mix_low : (a b s p : ℕ) → s + p ≡ wad → min a b * wad ≤ a * s + b * p
mix_low a b s p h =
    let l : min a b * s ≤ a * s = grind arith in
    let r : min a b * p ≤ b * p = grind arith in
    let w : min a b * wad ≡ min a b * s + min a b * p =
      ap (λ k. min a b * k) (sym h) ∙ distribute (min a b) s p in
    omega arith

mix_high : (a b s p : ℕ) → s + p ≡ wad → a * s + b * p ≤ max a b * wad
mix_high a b s p h =
    let l : a * s ≤ max a b * s = grind arith in
    let r : b * p ≤ max a b * p = grind arith in
    let w : max a b * wad ≡ max a b * s + max a b * p =
      ap (λ k. max a b * k) (sym h) ∙ distribute (max a b) s p in
    omega arith

weighted-Between :
    (stored spot alpha : ℕ)
    → stored < u128_mod
    → spot < u128_mod
    → alpha ≤ wad
    → (x : ℕ) × (weighted stored spot alpha ≡ some x) × Between stored spot x
unfolding weighted
weighted-Between stored spot alpha hs hp ha =
    let rest : wrapping_sub wad alpha ≡ wad - alpha = omega arith in
    let sum = stored * alpha + spot * (wad - alpha) in
    let low = mix_low stored spot alpha (wad - alpha) (omega arith) in
    let high = mix_high stored spot alpha (wad - alpha) (omega arith) in
    let (below, above) = div_bounds sum wad (omega arith) in
    let fits : sum < u256_mod = omega (arith, high) in
    let least : min stored spot ≤ sum / wad = omega (arith, low, above) in
    let most : sum / wad ≤ max stored spot = omega (arith, high, below) in
    let exact : (stored * alpha + spot * wrapping_sub wad alpha) % u256_mod ≡ sum =
      subst (λ k. (stored * alpha + spot * k) % u256_mod ≡ sum) (sym rest) (omega (arith, fits)) in
    let narrow_sum : sum / wad < u128_mod = omega (arith, most) in
    (sum / wad, ground arith, (least, most))

weigh_pair-some :
    (stored spot : PricePair) (alpha x y : ℕ)
    → weighted stored.amm spot.amm alpha ≡ some x
    → weighted stored.index spot.index alpha ≡ some y
    → weigh_pair stored spot alpha ≡ some (record { amm = x; index = y })
unfolding weigh_pair
weigh_pair-some stored spot alpha x y ex ey = cc

later_lem : (a b : ℕ) → b < a → leb a b ≡ false
later_lem a b h = ground arith

positive_lem : (w : ℕ) → 0 < w → (w == 0) ≡ false
positive_lem w h = ground arith

-- Past the guards.
calculate_emas-value :
    (stored spot e : PricePair) (last now window alpha : ℕ)
    → leb now last ≡ false
    → (window == 0) ≡ false
    → to_i256 ((now - last) * wad / window) ≡ ok (pos ((now - last) * wad / window))
    → exp_wad (neg (pos ((now - last) * wad / window))) ≡ ok alpha
    → weigh_pair stored spot alpha ≡ some e
    → calculate_emas stored spot last now window ≡ ok (some e)
unfolding calculate_emas
calculate_emas-value stored spot e last now window alpha h k number ea pair = cc

to_i256-small : (n : ℕ) → n < i256_half → to_i256 n ≡ ok (pos n)
unfolding to_i256
to_i256-small n h = ground arith

-- For stored and spot prices of 128 bits and a later timestamp in 64 bits, with a window above 0 and
-- a weight of at most 1: the averages exist, nothing overflows, and each lies between the stored and
-- the spot price.
pub calculate_emas-Between :
    (stored spot : PricePair) (last_touch timestamp window alpha : ℕ)
    → stored.amm < u128_mod
    → stored.index < u128_mod
    → spot.amm < u128_mod
    → spot.index < u128_mod
    → last_touch < timestamp
    → timestamp < u64_mod
    → 0 < window
    → exp_wad (neg (pos ((timestamp - last_touch) * wad / window))) ≡ ok alpha
    → alpha ≤ wad
    → (e : PricePair) × (calculate_emas stored spot last_touch timestamp window ≡ ok (some e))
      × Between stored.amm spot.amm e.amm
      × Between stored.index spot.index e.index
calculate_emas-Between stored spot last now window alpha sa si pa pi later word wide ea ha =
    let (x, ex, bx) = weighted-Between stored.amm spot.amm alpha sa pa ha in
    let (y, ey, by) = weighted-Between stored.index spot.index alpha si pi ha in
    let ratio = (now - last) * wad / window in
    let below = (div_bounds ((now - last) * wad) window wide).0 in
    let small : ratio < i256_half = grind arith in
    let pair = weigh_pair-some stored spot alpha x y ex ey in
    let number = to_i256-small ratio small in
    let e : PricePair = record { amm = x; index = y } in
    (
      e,
      calculate_emas-value stored spot e last now window alpha (later_lem now last later)
          (positive_lem window wide) number ea pair,
      bx,
      by,
    )
