-- ===== src/Hft/StateCache/Laws.antt =====
-- What the cache returns after it was written or invalidated.
use perpcity_rust_sdk.Base.{ℕ, ◌<◌, ◌≡◌, refl, some, none, ltb, if◌then◌else◌, ◌==◌, arith}
use perpcity_rust_sdk.Base.Dict.{Dict, lookup-insert}
use perpcity_rust_sdk.Base.Float.{Float}
use perpcity_rust_sdk.Base.Word.{sat_add64}
use perpcity_rust_sdk.Hft.StateCache.{
  CachedValue, CachedFees, CachedBounds, BalanceKey, StateCache, key_code, get_valid, put_until,
  get_fees, put_fees, get_bounds, put_bounds, get_pool_price, put_pool_price, get_funding_rate,
  put_funding_rate, get_balance, put_balance, invalidate_fast_layer, invalidate_all,
}

get_valid-put_until :
    {T : Type 0} (j k : ℕ) (v : T) (now later ttl : ℕ) (d : Dict (CachedValue T))
    → get_valid j later (put_until k v now ttl d) ≡ (
        if j == k
        then (if ltb later (sat_add64 now ttl) then some v else none)
        else get_valid j later d)
unfolding get_valid put_until
get_valid-put_until j k v now later ttl d =
    ground (arith, lookup-insert j k (record { value = v; expires_at = sat_add64 now ttl }) d)

-- Two keys of twenty-byte parts have one code only if they are one key.
pub key_code-injective :
    (a b : BalanceKey)
    → a.holder < 1461501637330902918203684832716283019655932542976
    → b.holder < 1461501637330902918203684832716283019655932542976
    → key_code a ≡ key_code b
    → (a.token ≡ b.token) × (a.holder ≡ b.holder)
key_code-injective a b h k e = (omega arith, omega arith)

module _ (fl : Float) where
  open fl use {F}

  -- What a slow-layer read returns after a slow-layer write: the value written under its own key
  -- while its time to live lasts and nothing after that, and under another key what it returned
  -- before.
  pub slow_layer_read :
      (j k now later : ℕ) (fees : CachedFees) (bounds : CachedBounds F) (c : StateCache F)
      → (get_fees fl j later (put_fees fl k fees now c) ≡ (
          if j == k
          then (if ltb later (sat_add64 now c.slow_ttl) then some fees else none)
          else get_fees fl j later c))
        × (get_bounds fl j later (put_bounds fl k bounds now c) ≡ (
            if j == k
            then (if ltb later (sat_add64 now c.slow_ttl) then some bounds else none)
            else get_bounds fl j later c))
  unfolding get_fees put_fees get_bounds put_bounds
  slow_layer_read j k now later fees bounds c = (
    get_valid-put_until j k fees now later c.slow_ttl c.fees,
    get_valid-put_until j k bounds now later c.slow_ttl c.bounds,
  )

  -- The same of the fast layer and its time to live.
  pub fast_layer_read :
      (j k now later : ℕ) (x : F) (balance : ℕ) (a b : BalanceKey) (c : StateCache F)
      → (get_pool_price fl j later (put_pool_price fl k x now c) ≡ (
          if j == k
          then (if ltb later (sat_add64 now c.fast_ttl) then some x else none)
          else get_pool_price fl j later c))
        × (get_funding_rate fl j later (put_funding_rate fl k x now c) ≡ (
            if j == k
            then (if ltb later (sat_add64 now c.fast_ttl) then some x else none)
            else get_funding_rate fl j later c))
        × (get_balance fl a later (put_balance fl b balance now c) ≡ (
            if key_code a == key_code b
            then (if ltb later (sat_add64 now c.fast_ttl) then some balance else none)
            else get_balance fl a later c))
  unfolding get_pool_price put_pool_price get_funding_rate put_funding_rate get_balance put_balance
  fast_layer_read j k now later x balance a b c = (
    get_valid-put_until j k x now later c.fast_ttl c.pool_prices,
    get_valid-put_until j k x now later c.fast_ttl c.funding_rates,
    get_valid-put_until (key_code a) (key_code b) balance now later c.fast_ttl c.balances,
  )

  -- After the fast layer is invalidated its reads return nothing and the slow layer's are as before;
  -- after all is invalidated no read returns anything.
  pub invalidation :
      (k now : ℕ) (key : BalanceKey) (c : StateCache F)
      → let f = invalidate_fast_layer fl c in
        let n = invalidate_all fl c in
        (get_pool_price fl k now f ≡ none)
        × (get_funding_rate fl k now f ≡ none)
        × (get_balance fl key now f ≡ none)
        × (get_fees fl k now f ≡ get_fees fl k now c)
        × (get_bounds fl k now f ≡ get_bounds fl k now c)
        × (get_fees fl k now n ≡ none)
        × (get_bounds fl k now n ≡ none)
        × (get_pool_price fl k now n ≡ none)
        × (get_funding_rate fl k now n ≡ none)
        × (get_balance fl key now n ≡ none)
  unfolding get_fees get_bounds get_pool_price get_funding_rate get_balance invalidate_fast_layer
      invalidate_all
  invalidation k now key c = (refl, refl, refl, refl, refl, refl, refl, refl, refl, refl)
