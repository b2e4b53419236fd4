-- ===== src/Math/Amounts/Favour.antt =====
-- The price after an exact amount of token0, and whom its rounding favours.
use perpcity_rust_sdk.Base.{
  ℕ, zero, suc, ◌+◌, ◌-◌, ◌*◌, ◌≡◌, ◌<◌, ◌≤◌, refl, sym, subst, Bool, true, false, arith, min, max,
}
use native.Mathlib.Nat.{le-div_iff_mul-le}
use perpcity_rust_sdk.Base.Result.{ok}
use perpcity_rust_sdk.Base.Word.{u128_mod}
use perpcity_rust_sdk.Math.FixedPoint.{toward_zero, up, round_div, ceil_div, u512_to_u256}
use perpcity_rust_sdk.Math.FixedPoint.Laws.{ceil_div-le_iff, ceil_div_bounds}
use perpcity_rust_sdk.Math.Amounts.Exact.{amount0_delta-exact}
use perpcity_rust_sdk.Math.Amounts.{amount0_delta, next_sqrt_from_amount0, sqrt_denominator, q96}

-- What `next_sqrt_from_amount0` returns for an amount that is not zero.
next_sqrt_value :
    (sqrt liquidity amount after : ℕ) (add : Bool)
    → 0 < amount
    → next_sqrt_from_amount0 sqrt liquidity amount add ≡ ok after
    → (d : ℕ) × (sqrt_denominator (liquidity * q96) (amount * sqrt) add ≡ ok d)
      × (0 < d)
      × (after ≡ ceil_div (liquidity * q96 * sqrt) d)
unfolding next_sqrt_from_amount0 u512_to_u256 sqrt_denominator
next_sqrt_value sqrt liquidity amount after true h e =
    (liquidity * q96 + amount * sqrt, refl, ground arith, ground arith)
next_sqrt_value sqrt liquidity amount after false h e =
    (liquidity * q96 - amount * sqrt, ground arith, ground arith, ground arith)

-- Products with a difference, the larger price written as a sum.
sell_sum : (n a x k : ℕ) → n * (x + k) ≤ x * (n + a * (x + k)) → n * k ≤ a * ((x + k) * x)
sell_sum n a x k h = omega arith

buy_sum : (n a s k : ℕ) → n * s + (s + k) * (a * s) ≤ (s + k) * n → a * ((s + k) * s) ≤ n * k
buy_sum n a s k h = omega arith

-- A sale of token0: the price does not rise, and the token0 that the move down to it takes, rounded
-- up, is no more than the amount sold.
pub sell_favours_pool :
    (sqrt liquidity amount after : ℕ)
    → 0 < amount
    → 0 < sqrt
    → 0 < liquidity
    → liquidity < u128_mod
    → next_sqrt_from_amount0 sqrt liquidity amount true ≡ ok after
    → (0 < after)
      × (after ≤ sqrt)
      × ((taken : ℕ) × (amount0_delta after sqrt liquidity up ≡ ok taken) × (taken ≤ amount))
unfolding sqrt_denominator round_div
sell_favours_pool sqrt liquidity amount after ha hs hl small e =
    let n = liquidity * q96 in
    let (d, ed, pd, q) = next_sqrt_value sqrt liquidity amount after true ha e in
    let dd : d ≡ n + amount * sqrt = ground arith in
    let (lo, hi) = ceil_div_bounds (n * sqrt) d pd in
    let reach : n * sqrt ≤ after * (n + amount * sqrt) = rw (q, ← dd) lo in
    let le : after ≤ sqrt = rw q ((ceil_div-le_iff (n * sqrt) d sqrt pd).1 (rw dd (grind arith))) in
    let positive : 0 < after = positive_of n sqrt after (amount * sqrt) (grind arith) reach in
    let split : sqrt ≡ after + (sqrt - after) = omega arith in
    let core : n * (sqrt - after) ≤ amount * (sqrt * after) =
      moved n amount sqrt after split reach in
    (
      positive,
      le,
      (
        round_div (n * (max after sqrt - min after sqrt)) (max after sqrt * min after sqrt) up,
        amount0_delta-exact after sqrt liquidity up positive hs small,
        taken_le n after sqrt amount positive le core,
      ),
    )
  where
    positive_of : (n s x p : ℕ) → 0 < n * s → n * s ≤ x * (n + p) → 0 < x
    positive_of n s zero p h k = absurd (omega arith)
    positive_of n s (suc x) p h k = omega arith

    moved : (n a s x : ℕ) → s ≡ x + (s - x) → n * s ≤ x * (n + a * s) → n * (s - x) ≤ a * (s * x)
    moved n a s x e h =
        subst (λ t. n * (s - x) ≤ a * (t * x)) (sym e)
          (sell_sum n a x (s - x) (subst (λ t. n * t ≤ x * (n + a * t)) e h))

    taken_le :
        (n x s a : ℕ)
        → 0 < x
        → x ≤ s
        → n * (s - x) ≤ a * (s * x)
        → round_div (n * (max x s - min x s)) (max x s * min x s) up ≤ a
    taken_le n x s a px le h =
        let m : max x s ≡ s = omega arith in
        let k : min x s ≡ x = omega arith in
        rw (m, k, round_div) ((ceil_div-le_iff (n * (s - x)) (s * x) a (grind arith)).1 h)

-- A purchase of token0: the price does not fall, and the token0 that the move up to it releases,
-- rounded down, is no less than the amount bought.
pub buy_favours_pool :
    (sqrt liquidity amount after : ℕ)
    → 0 < amount
    → 0 < sqrt
    → 0 < liquidity
    → liquidity < u128_mod
    → next_sqrt_from_amount0 sqrt liquidity amount false ≡ ok after
    → (sqrt ≤ after)
      × ((given : ℕ) × (amount0_delta sqrt after liquidity toward_zero ≡ ok given)
          × (amount ≤ given))
unfolding sqrt_denominator round_div
buy_favours_pool sqrt liquidity amount after ha hs hl small e =
    let n = liquidity * q96 in
    let (d, ed, pd, q) = next_sqrt_value sqrt liquidity amount after false ha e in
    let fits : amount * sqrt ≤ n = ground arith in
    let dd : d ≡ n - amount * sqrt = ground arith in
    let (lo, hi) = ceil_div_bounds (n * sqrt) d pd in
    let reach : n * sqrt ≤ after * (n - amount * sqrt) = rw (q, ← dd) lo in
    let le : sqrt ≤ after = rises n sqrt after (amount * sqrt) fits (rw (← dd) pd) reach in
    let core : amount * (after * sqrt) ≤ n * (after - sqrt) =
      moved n amount sqrt after (omega arith) (spread n sqrt after (amount * sqrt) fits reach) in
    (
      le,
      (
        round_div (n * (max sqrt after - min sqrt after)) (max sqrt after * min sqrt after)
            toward_zero,
        amount0_delta-exact sqrt after liquidity toward_zero hs (omega arith) small,
        given_ge n after sqrt amount hs le core,
      ),
    )
  where
    rises : (n s x p : ℕ) → p ≤ n → 0 < n - p → n * s ≤ x * (n - p) → s ≤ x
    rises n s x p h k r = grind arith

    spread : (n s x p : ℕ) → p ≤ n → n * s ≤ x * (n - p) → n * s + x * p ≤ x * n
    spread n s x p h r =
        let w : n ≡ (n - p) + p = omega arith in
        subst (λ t. n * s + x * p ≤ x * t) (sym w) (omega arith)

    moved :
        (n a s x : ℕ) → x ≡ s + (x - s) → n * s + x * (a * s) ≤ x * n → a * (x * s) ≤ n * (x - s)
    moved n a s x e h =
        subst (λ t. a * (t * s) ≤ n * (x - s)) (sym e)
          (buy_sum n a s (x - s) (subst (λ t. n * s + t * (a * s) ≤ t * n) e h))

    given_ge :
        (n x s a : ℕ)
        → 0 < s
        → s ≤ x
        → a * (x * s) ≤ n * (x - s)
        → a ≤ round_div (n * (max s x - min s x)) (max s x * min s x) toward_zero
    given_ge n x s a ps le h =
        let m : max s x ≡ x = omega arith in
        let k : min s x ≡ s = omega arith in
        rw (m, k, round_div) ((le-div_iff_mul-le (grind arith)).1 h)
