-- ===== src/Math/Pricing/Tests.antt =====
-- The averages and the fair price at concrete prices.
use perpcity_rust_sdk.Base.{◌≡◌, some, refl}
use perpcity_rust_sdk.Base.Int.{negsuc, neg, ◌+ℤ◌, ◌-ℤ◌}
use perpcity_rust_sdk.Base.Result.{ok}
use perpcity_rust_sdk.Math.FixedPoint.{to_i256}
use perpcity_rust_sdk.Math.Liquidity.{narrow}
use perpcity_rust_sdk.Math.Pricing.{
  calculate_emas, Emas, advanced, pair, stored, stored_at, try_from_x96, weigh_pair, weighted,
}
use perpcity_rust_sdk.Math.FixedPoint.Exp.{
  exp_wad, exponent_of, numerator, denominator, scaled, div, shl, sub, mul, add, times, asr_96,
  wrap_i256,
}

-- e^-1 in WAD.
exp_minus_one : exp_wad (negsuc 999999999999999999) ≡ ok 367879441171442321
unfolding exp_wad exponent_of numerator denominator scaled div shl sub mul add times asr_96
    wrap_i256 ◌+ℤ◌ ◌-ℤ◌ neg
exp_minus_one = refl

abbrev before : Emas
before = record { amm_price = 100; index = 90; last_touch = 1000 }

abbrev after : Emas
after = record { amm_price = 163; index = 58; last_touch = 1600 }

moved : advanced before 200 40 1600 600 ≡ ok (some after)
unfolding advanced pair stored stored_at try_from_x96 narrow calculate_emas weigh_pair weighted
    to_i256 exp_wad exponent_of numerator denominator scaled div shl sub mul add times asr_96
    wrap_i256 ◌+ℤ◌ ◌-ℤ◌ neg
moved = refl
