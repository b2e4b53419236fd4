-- ===== src/Math/Liquidity/Sizing.antt =====
-- Sizing a band by margin and a margin by its band are adjoint.
use perpcity_rust_sdk.Base.{ℕ, ◌-◌, ◌*◌, ◌/◌, ◌≤◌, ◌<◌, ◌≡◌, ◌↔◌, ap, arith}
use native.Mathlib.Nat.{le-div_iff_mul-le}
use perpcity_rust_sdk.Base.Result.{ok}
use perpcity_rust_sdk.Math.FixedPoint.{mul_div, round_div, ceil_div, u256_mod, u512_to_u256}
use perpcity_rust_sdk.Math.FixedPoint.Laws.{ceil_div-le_iff}
use perpcity_rust_sdk.Math.Amounts.{q96}
use perpcity_rust_sdk.Math.Range.{TickRange, sqrt_bounds}
use perpcity_rust_sdk.Math.Liquidity.{
  narrow, wrapping_sub, estimate_liquidity, margin_for_liquidity,
}

pub narrow-eq-ok : (a b : ℕ) → narrow a ≡ ok b → b ≡ a
unfolding narrow
narrow-eq-ok a b e = ground arith

sub_exact : (a b : ℕ) → a < b → b < u256_mod → wrapping_sub b a ≡ b - a
sub_exact a b h k = omega arith

estimate_value :
    (range : TickRange) (a b usd l : ℕ)
    → sqrt_bounds range ≡ ok (a, b)
    → a < b
    → b < u256_mod
    → estimate_liquidity range usd ≡ ok l
    → l ≡ usd * q96 / (b - a)
unfolding estimate_liquidity
estimate_value range a b usd l e h k r =
    let d = sub_exact a b h k in
    ground (arith, e, d, ap (λ x. usd * q96 / x) d, narrow-eq-ok (usd * q96 / wrapping_sub b a) l)

margin_value :
    (range : TickRange) (a b l m : ℕ)
    → sqrt_bounds range ≡ ok (a, b)
    → a < b
    → b < u256_mod
    → margin_for_liquidity range l ≡ ok m
    → m ≡ ceil_div (l * (b - a)) q96
unfolding margin_for_liquidity mul_div round_div u512_to_u256
margin_value range a b l m e h k r =
    let d = sub_exact a b h k in
    ground (
      arith,
      e,
      d,
      ap (λ x. ceil_div (l * x) q96) d,
      narrow-eq-ok (ceil_div (l * wrapping_sub b a) q96) m,
    )

-- For a range whose lower square-root price is below its upper one: the margin that a liquidity
-- requires is at most an amount exactly where the liquidity that the amount sizes is at least it. So
-- the margin for a liquidity is the least amount that sizes it.
pub margin-estimate_adjoint :
    (range : TickRange) (a b usd l l' m : ℕ)
    → sqrt_bounds range ≡ ok (a, b)
    → a < b
    → b < u256_mod
    → estimate_liquidity range usd ≡ ok l'
    → margin_for_liquidity range l ≡ ok m
    → (m ≤ usd) ↔ (l ≤ l')
margin-estimate_adjoint range a b usd l l' m e h k p q =
    let x = estimate_value range a b usd l' e h k p in
    let y = margin_value range a b l m e h k q in
    let g = ceil_div-le_iff (l * (b - a)) q96 usd (omega arith) in
    let d = le-div_iff_mul-le {k = b - a} {x = l} {y = usd * q96} (omega arith) in
    (λ s. rw x (d.1 (g.0 (rw (← y) s))), λ s. rw y (g.1 (d.0 (rw (← x) s))))
