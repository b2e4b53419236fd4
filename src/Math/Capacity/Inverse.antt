-- ===== src/Math/Capacity/Inverse.antt =====
-- The liquidity for a capacity is the least that reaches it.
use perpcity_rust_sdk.Base.{
  ℕ, ◌-◌, ◌*◌, ◌/◌, ◌≤◌, ◌<◌, ◌≡◌, ◌≢◌, ◌↔◌, refl, sym, ap, ◌∙◌, subst, min, max, arith, inl, inr,
}
use native.Mathlib.Nat.{le-div_iff_mul-le}
use perpcity_rust_sdk.Base.Word.{u128_mod}
use perpcity_rust_sdk.Base.Result.{ok, >>=-eq-ok, Result-cases}
use perpcity_rust_sdk.Math.Side.{Side, longs, shorts, PerSide}
use perpcity_rust_sdk.Math.FixedPoint.{toward_zero, round_div}
use perpcity_rust_sdk.Math.FixedPoint.Laws.{ceil_div-le_iff}
use perpcity_rust_sdk.Math.Amounts.{q96, amount0_delta}
use perpcity_rust_sdk.Math.Amounts.Exact.{amount0_delta-exact}
use perpcity_rust_sdk.Math.Range.{TickRange}
use perpcity_rust_sdk.Math.Liquidity.{narrow}
use perpcity_rust_sdk.Math.Liquidity.Sizing.{narrow-eq-ok}
use perpcity_rust_sdk.Math.Capacity.{
  PricedRange, priced, span, perp, capacity, least_liquidity, choose_liquidity,
  liquidity_for_capacity,
}

-- The bounds are positive and in order, with the price between them.
pub record IsOrdered (p : PricedRange) : Type 0 where
  pub positive : 0 < p.sqrt_lower
  pub below : p.sqrt_lower ≤ p.sqrt_clamped
  pub above : p.sqrt_clamped ≤ p.sqrt_upper

span_ordered :
    (side : Side) (p : PricedRange)
    → IsOrdered p
    → (0 < (span side p).0) × ((span side p).0 ≤ (span side p).1)
unfolding span
span_ordered longs p o = (omega (arith, o.positive, o.below), o.above)
span_ordered shorts p o = (o.positive, o.below)

-- The capacity of a liquidity is an exact quotient.
perp_value :
    (side : Side) (l c : ℕ) (p : PricedRange)
    → IsOrdered p
    → l < u128_mod
    → perp side l p ≡ ok c
    → let lo = (span side p).0 in let hi = (span side p).1 in c ≡ l * q96 * (hi - lo) / (hi * lo)
unfolding perp round_div
perp_value side l c p o s e =
    let lo = (span side p).0 in
    let hi = (span side p).1 in
    let (a, b) = span_ordered side p o in
    let (x, ex, n) = >>=-eq-ok (amount0_delta lo hi l toward_zero) narrow e in
    let v = amount0_delta-exact lo hi l toward_zero a (omega arith) s in
    let mx : max lo hi ≡ hi = omega arith in
    let mn : min lo hi ≡ lo = omega arith in
    let whole : ok x ≡ ok (l * q96 * (hi - lo) / (hi * lo)) = sym ex ∙ v ∙ rw (mx, mn) refl in
    let same : x ≡ l * q96 * (hi - lo) / (hi * lo) = cc in narrow-eq-ok x c n ∙ same

reaches_iff :
    (target lo hi l : ℕ)
    → 0 < lo
    → lo < hi
    → (target ≤ l * q96 * (hi - lo) / (hi * lo)) ↔ (least_liquidity target lo hi ≤ l)
unfolding least_liquidity
reaches_iff target lo hi l a b =
    let gap : 0 < q96 * (hi - lo) = omega arith in
    let area : 0 < hi * lo = grind arith in
    let d = le-div_iff_mul-le {k = hi * lo} {x = target} {y = l * q96 * (hi - lo)} area in
    let g = ceil_div-le_iff (target * hi * lo) (q96 * (hi - lo)) l gap in
    let p : target * (hi * lo) ≡ target * hi * lo = omega arith in
    let q : l * q96 * (hi - lo) ≡ l * (q96 * (hi - lo)) = omega arith in
    (λ h. g.1 (omega (arith, d.0 h)), λ h. d.1 (omega (arith, g.0 h)))

-- What a result for a positive target comes from.
returned :
    (target least : ℕ) (range : TickRange) (side : Side) (p : PricedRange)
    → 0 < target
    → choose_liquidity target range side p ≡ ok least
    → ((span side p).0 ≢ (span side p).1)
      × (least ≡ least_liquidity target (span side p).0 (span side p).1)
      × ((c : PerSide ℕ) × (capacity least p ≡ ok c))
unfolding choose_liquidity
returned target least range side p h e =
    let l = least_liquidity target (span side p).0 (span side p).1 in
    elim (Result-cases (capacity l p)) [
      | inl (x, q) ↦ absurd (ground arith)
      | inr (c, q) ↦
          let v : least ≡ l = ground arith in
          (λ a. ground arith, v, (c, ap (λ k. capacity k p) v ∙ q))
    ]

-- Where the price lies inside the range's part for a side: the liquidity that is returned for a
-- positive target is the least one: any liquidity has a capacity on that side of at least the target
-- exactly if it is at least that.
pub liquidity_for_capacity-least :
    (sqrt_price target least : ℕ) (range : TickRange) (side : Side) (p : PricedRange)
    → 0 < target
    → priced sqrt_price range ≡ ok p
    → IsOrdered p
    → liquidity_for_capacity sqrt_price range side target ≡ ok least
    → (l c : ℕ) → l < u128_mod
    → perp side l p ≡ ok c
    → (target ≤ c) ↔ (least ≤ l)
unfolding liquidity_for_capacity
liquidity_for_capacity-least sqrt_price target least range side p h ep o e l c s ec =
    let (p', ep', r) = >>=-eq-ok (priced sqrt_price range) _ e in
    let same : p' ≡ p = cc in
    let (apart, v, fits) =
      returned target least range side p h
        (subst (λ (k : PricedRange). choose_liquidity target range side k ≡ ok least) same r) in
    let (a, b) = span_ordered side p o in
    let g = reaches_iff target (span side p).0 (span side p).1 l a (omega arith) in
    let q = perp_value side l c p o s ec in
    (λ k. rw v (g.0 (rw (← q) k)), λ k. rw q (g.1 (rw (← v) k)))
