-- ===== src/Math/Maker/Tests.antt =====
-- The accumulators at concrete growths.
use perpcity_rust_sdk.Base.{◌+◌, ◌%◌, ◌≡◌, refl, arith}
use perpcity_rust_sdk.Base.Int.{pos, negsuc, ◌-ℤ◌}
use perpcity_rust_sdk.Base.Result.{ok}
use perpcity_rust_sdk.Math.FixedPoint.{u256_mod, sub_i}
use perpcity_rust_sdk.Math.Maker.{fee_growth_inside1, funding_below, maker_cuml_funding}
use perpcity_rust_sdk.Math.Maker.Accumulators.{fee_growth_inside1-adds}

fee_growth_inside1-adds_example :
    (fee_growth_inside1 10 7 9 (negsuc 29) (pos 0) (pos 5)
        + fee_growth_inside1 10 9 4 (pos 0) (pos 30) (pos 5))
      % u256_mod
    ≡ fee_growth_inside1 10 7 4 (negsuc 29) (pos 30) (pos 5)
fee_growth_inside1-adds_example =
    fee_growth_inside1-adds 10 7 9 4 (negsuc 29) (pos 0) (pos 30) (pos 5) (omega arith)
      (omega arith) (omega arith) (omega arith)

-- The current tick stands inside the band.
inside :
    maker_cuml_funding (record {
      tick = pos 5;
      funding = pos 100;
      funding_div_sqrt_p = pos 50;
      tick_lower = pos 0;
      tick_upper = pos 30;
      tick_lower_funding = record {
        cuml_funding_opp = pos 20;
        cuml_funding_div_sqrt_p_opp = pos 10;
      };
      tick_upper_funding = record {
        cuml_funding_opp = pos 30;
        cuml_funding_div_sqrt_p_opp = pos 60;
      };
    })
    ≡ ok (pos 20, pos 50, negsuc 19)
unfolding maker_cuml_funding funding_below sub_i ◌-ℤ◌
inside = refl
