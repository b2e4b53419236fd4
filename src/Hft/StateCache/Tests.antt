-- ===== src/Hft/StateCache/Tests.antt =====
-- Reads of a cache that was written or invalidated.
use perpcity_rust_sdk.Base.{ℕ, ◌≡◌, some, []}
use perpcity_rust_sdk.Base.Float.{thousandths}
use perpcity_rust_sdk.Hft.StateCache.{
  CachedFees, CachedBounds, BalanceKey, StateCache, get_fees, put_fees, get_bounds, put_bounds,
  put_pool_price,
}
use perpcity_rust_sdk.Hft.StateCache.Laws.{slow_layer_read}

abbrev cache : StateCache ℕ
cache = record {
  fees = [];
  bounds = [];
  pool_prices = [];
  funding_rates = [];
  balances = [];
  slow_ttl = 60;
  fast_ttl = 2;
}

abbrev fees : CachedFees
fees = record { creator_fee = 1; insurance_fee = 2; lp_fee = 3; liquidation_fee = 4 }

abbrev bounds : CachedBounds ℕ
bounds = record {
  min_margin = 10;
  min_taker_leverage = 1000;
  max_taker_leverage = 10000;
  liquidation_taker_ratio = 5;
}

abbrev key : BalanceKey
key = record { token = 3; holder = 5 }

slow_layer_read_example :
    (get_fees thousandths 9 159 (put_fees thousandths 9 fees 100 cache) ≡ some fees)
    × (get_bounds thousandths 9 159 (put_bounds thousandths 9 bounds 100 cache) ≡ some bounds)
slow_layer_read_example = slow_layer_read thousandths 9 9 100 159 fees bounds cache

abbrev filled : StateCache ℕ
filled = put_pool_price thousandths 9 1500 100 (put_fees thousandths 9 fees 100 cache)
