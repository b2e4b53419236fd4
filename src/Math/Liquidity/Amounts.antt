-- ===== src/Math/Liquidity/Amounts.antt =====
-- What a band holds: the same for its bounds in either order, one asset alone beyond its edges.
use perpcity_rust_sdk.Base.{ℕ, ◌≤◌, ◌≡◌, sym, ap, ◌∙◌, min, max, arith}
use perpcity_rust_sdk.Base.Result.{ok, >>=-eq-ok}
use perpcity_rust_sdk.Math.FixedPoint.{toward_zero}
use perpcity_rust_sdk.Math.Amounts.{amount0_delta, amount1_delta}
use perpcity_rust_sdk.Math.Amounts.Same.{amount0_same, amount1_same}
use perpcity_rust_sdk.Math.Liquidity.Sizing.{narrow-eq-ok}
use perpcity_rust_sdk.Math.Liquidity.{narrow, amounts_between, amounts_for_liquidity}

min_comm : (a b : ℕ) → min a b ≡ min b a
min_comm a b = omega arith

max_comm : (a b : ℕ) → max a b ≡ max b a
max_comm a b = omega arith

-- The parts of a result.
between_parts :
    (p a b l perps usd : ℕ)
    → amounts_between p a b l ≡ ok (perps, usd)
    → (amount0_delta p b l toward_zero ≡ ok perps) × (amount1_delta a p l toward_zero ≡ ok usd)
unfolding amounts_between
between_parts p a b l perps usd e =
    let (x, ex, e1) = >>=-eq-ok (amount0_delta p b l toward_zero) _ e in
    let (y, ey, e2) = >>=-eq-ok (amount1_delta a p l toward_zero) _ e1 in
    let (x', nx, e3) = >>=-eq-ok (narrow x) _ e2 in
    let (y', ny, e4) = >>=-eq-ok (narrow y) _ e3 in
    let p1 = narrow-eq-ok x x' nx in
    let p2 = narrow-eq-ok y y' ny in
    let q1 : x' ≡ perps = cc in
    let q2 : y' ≡ usd = cc in (ex ∙ ap ok (sym p1 ∙ q1), ey ∙ ap ok (sym p2 ∙ q2))

between_low : (a b l perps usd : ℕ) → amounts_between a a b l ≡ ok (perps, usd) → usd ≡ 0
between_low a b l perps usd e =
    amount1_same a l toward_zero usd (between_parts a a b l perps usd e).1

between_high : (a b l perps usd : ℕ) → amounts_between b a b l ≡ ok (perps, usd) → perps ≡ 0
between_high a b l perps usd e =
    amount0_same b l toward_zero perps (between_parts b a b l perps usd e).0

clamp_low : (p a b : ℕ) → p ≤ min a b → min (max p (min a b)) (max a b) ≡ min a b
clamp_low p a b h = omega arith

clamp_high : (p a b : ℕ) → max a b ≤ p → min (max p (min a b)) (max a b) ≡ max a b
clamp_high p a b h = omega arith

amounts_ok :
    (p a b l : ℕ) (r : ℕ × ℕ)
    → amounts_for_liquidity p a b l ≡ ok r
    → amounts_between (min (max p (min a b)) (max a b)) (min a b) (max a b) l ≡ ok r
unfolding amounts_for_liquidity
amounts_ok p a b l r e = ground arith

amounts_sym : (p a b l : ℕ) → amounts_for_liquidity p a b l ≡ amounts_for_liquidity p b a l
unfolding amounts_for_liquidity
amounts_sym p a b l = ground (arith, min_comm a b, max_comm a b)

-- A band holds the same whichever of its bounds comes first; where the price is at or below both
-- bounds it holds no USDC, and where it is at or above both it holds no perps.
pub amounts_for_liquidity-edges :
    (p a b l : ℕ)
    → (amounts_for_liquidity p a b l ≡ amounts_for_liquidity p b a l)
      × ((perps usd : ℕ)
          → amounts_for_liquidity p a b l ≡ ok (perps, usd)
          → (p ≤ min a b → usd ≡ 0) × (max a b ≤ p → perps ≡ 0))
amounts_for_liquidity-edges p a b l = (
  amounts_sym p a b l,
  λ perps usd e.
      let r = amounts_ok p a b l (perps, usd) e in
      (
        λ h.
            between_low (min a b) (max a b) l perps usd
              (ap (λ x. amounts_between x (min a b) (max a b) l) (sym (clamp_low p a b h)) ∙ r),
        λ h.
            between_high (min a b) (max a b) l perps usd
              (ap (λ x. amounts_between x (min a b) (max a b) l) (sym (clamp_high p a b h)) ∙ r),
      ),
)
