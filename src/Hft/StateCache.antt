-- ===== src/Hft/StateCache.antt =====
-- The two-layer state cache: src/hft/state_cache.rs. Addresses and identifiers are byte strings of a
-- fixed length, read as numbers; a `Ratio` is its fixed-point integer.
pub mod Laws
mod Tests
use perpcity_rust_sdk.Base.{
  ℕ, ◌+◌, ◌*◌, ◌≡◌, Option, some, none, List, [], Bool, ltb, if◌then◌else◌,
}
use perpcity_rust_sdk.Base.Dict.{Dict, lookup, insert}
use perpcity_rust_sdk.Base.Float.{Float}
use perpcity_rust_sdk.Base.Word.{sat_add64}

pub record CachedValue (T : Type 0) : Type 0 where
  pub value : T
  pub expires_at : ℕ

pub record CachedFees : Type 0 where
  pub creator_fee : ℕ
  pub insurance_fee : ℕ
  pub lp_fee : ℕ
  pub liquidation_fee : ℕ

pub record CachedBounds (F : Type 0) : Type 0 where
  pub min_margin : F
  pub min_taker_leverage : F
  pub max_taker_leverage : F
  pub liquidation_taker_ratio : ℕ

pub record StateCacheConfig : Type 0 where
  pub slow_ttl : ℕ
  pub fast_ttl : ℕ

unfoldable pub default_config : StateCacheConfig
default_config = record { slow_ttl = 60; fast_ttl = 2 }

pub record BalanceKey : Type 0 where
  pub token : ℕ
  pub holder : ℕ

-- The forty bytes of a key, as one number.
abbrev pub key_code : BalanceKey → ℕ
key_code k = k.token * 1461501637330902918203684832716283019655932542976 + k.holder

pub record StateCache (F : Type 0) : Type 0 where
  pub fees : Dict (CachedValue CachedFees)
  pub bounds : Dict (CachedValue (CachedBounds F))
  pub pool_prices : Dict (CachedValue F)
  pub funding_rates : Dict (CachedValue F)
  pub balances : Dict (CachedValue ℕ)
  pub slow_ttl : ℕ
  pub fast_ttl : ℕ

module _ {T : Type 0} where
  unfoldable pub is_valid : ℕ → CachedValue T → Bool
  is_valid now_ts cv = ltb now_ts cv.expires_at

  -- `map.get(key).filter(is_valid).map(value)`, which every getter does.
  unfoldable pub get_valid : ℕ → ℕ → Dict (CachedValue T) → Option T
  unfolding is_valid
  get_valid k now_ts d = elim (lookup k d) [
    | none ↦ none
    | some cv ↦ if is_valid now_ts cv then some cv.value else none
  ]

  -- `map.insert(key, CachedValue { value, expires_at })`, which every putter does.
  unfoldable pub put_until : ℕ → T → ℕ → ℕ → Dict (CachedValue T) → Dict (CachedValue T)
  put_until k value now_ts ttl d =
      let cv : CachedValue T = record { value = value; expires_at = sat_add64 now_ts ttl } in
      insert k cv d

module _ (fl : Float) where
  open fl use {F}

  unfoldable pub new : StateCacheConfig → StateCache F
  new config = record {
    fees = [];
    bounds = [];
    pool_prices = [];
    funding_rates = [];
    balances = [];
    slow_ttl = config.slow_ttl;
    fast_ttl = config.fast_ttl;
  }

  unfoldable pub get_fees : ℕ → ℕ → StateCache F → Option CachedFees
  unfolding get_valid
  get_fees addr now_ts c = get_valid addr now_ts c.fees

  unfoldable pub put_fees : ℕ → CachedFees → ℕ → StateCache F → StateCache F
  unfolding put_until
  put_fees addr value now_ts c = record c { fees = put_until addr value now_ts c.slow_ttl c.fees }

  unfoldable pub get_bounds : ℕ → ℕ → StateCache F → Option (CachedBounds F)
  unfolding get_valid
  get_bounds addr now_ts c = get_valid addr now_ts c.bounds

  unfoldable pub put_bounds : ℕ → CachedBounds F → ℕ → StateCache F → StateCache F
  unfolding put_until
  put_bounds addr value now_ts c = record c {
    bounds = put_until addr value now_ts c.slow_ttl c.bounds;
  }

  unfoldable pub get_pool_price : ℕ → ℕ → StateCache F → Option F
  unfolding get_valid
  get_pool_price perp_id now_ts c = get_valid perp_id now_ts c.pool_prices

  unfoldable pub put_pool_price : ℕ → F → ℕ → StateCache F → StateCache F
  unfolding put_until
  put_pool_price perp_id price now_ts c = record c {
    pool_prices = put_until perp_id price now_ts c.fast_ttl c.pool_prices;
  }

  unfoldable pub get_funding_rate : ℕ → ℕ → StateCache F → Option F
  unfolding get_valid
  get_funding_rate perp_id now_ts c = get_valid perp_id now_ts c.funding_rates

  unfoldable pub put_funding_rate : ℕ → F → ℕ → StateCache F → StateCache F
  unfolding put_until
  put_funding_rate perp_id rate now_ts c = record c {
    funding_rates = put_until perp_id rate now_ts c.fast_ttl c.funding_rates;
  }

  unfoldable pub get_balance : BalanceKey → ℕ → StateCache F → Option ℕ
  unfolding get_valid
  get_balance key now_ts c = get_valid (key_code key) now_ts c.balances

  unfoldable pub put_balance : BalanceKey → ℕ → ℕ → StateCache F → StateCache F
  unfolding put_until
  put_balance key balance now_ts c = record c {
    balances = put_until (key_code key) balance now_ts c.fast_ttl c.balances;
  }

  unfoldable pub invalidate_fast_layer : StateCache F → StateCache F
  invalidate_fast_layer c = record c { pool_prices = []; funding_rates = []; balances = [] }

  unfoldable pub invalidate_all : StateCache F → StateCache F
  unfolding invalidate_fast_layer
  invalidate_all c = invalidate_fast_layer (record c { fees = []; bounds = [] })
