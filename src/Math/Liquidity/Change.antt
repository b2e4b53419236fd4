-- ===== src/Math/Liquidity/Change.antt =====
-- Adding liquidity and removing it again.
use perpcity_rust_sdk.Base.{
  ℕ, ◌+◌, ◌-◌, ◌*◌, ◌≤◌, ◌<◌, ◌≡◌, subst, sym, ap, ◌∙◌, min, max, true, leb, ◌==◌, if◌then◌else◌,
  arith, Bool-cases, inl, inr,
}
use perpcity_rust_sdk.Base.Division.{div_bounds}
use perpcity_rust_sdk.Base.Int.{
  ℤ, pos, negsuc, neg, abs, is_neg, ltb_ℤ, ◌+ℤ◌, ◌≤ℤ◌, pos_part, neg_part, int_laws, +ℤ_parts,
  neg_parts,
}
use perpcity_rust_sdk.Base.Word.{u128_mod}
use perpcity_rust_sdk.Base.Result.{ok, >>=-eq-ok}
use perpcity_rust_sdk.Math.FixedPoint.{Rounding, toward_zero, up, round_div, mul_div, u512_to_u256}
use perpcity_rust_sdk.Math.FixedPoint.Laws.{ceil_div_bounds}
use perpcity_rust_sdk.Math.Amounts.{amount0_delta, amount1_delta, q96}
use perpcity_rust_sdk.Math.Amounts.Exact.{amount0_delta-exact}
use perpcity_rust_sdk.Math.Range.{TickRange, sqrt_bounds}
use perpcity_rust_sdk.Math.Liquidity.{
  change_rounding, signed_leg, amount0_change, amount1_change, change_legs, liquidity_change_delta,
}

-- The two roundings of one quotient.
round_gap :
    (n d : ℕ)
    → 0 < d
    → (round_div n d toward_zero ≤ round_div n d up)
      × (round_div n d up ≤ round_div n d toward_zero + 1)
unfolding round_div
round_gap n d h =
    let (a, b) = div_bounds n d h in
    let (c, e) = ceil_div_bounds n d h in (grind arith, grind arith)

amount1_gap :
    (a b l x y : ℕ)
    → amount1_delta a b l up ≡ ok x
    → amount1_delta a b l toward_zero ≡ ok y
    → (y ≤ x) × (x ≤ y + 1)
unfolding amount1_delta mul_div u512_to_u256
amount1_gap a b l x y e f =
    let (p, q) = round_gap (l * (if leb b a then a - b else b - a)) q96 (omega arith) in
    (ground arith, ground arith)

amount0_positive : (a b l x : ℕ) (r : Rounding) → amount0_delta a b l r ≡ ok x → (0 < a) × (0 < b)
unfolding amount0_delta
amount0_positive a b l x r e = (ground arith, ground arith)

amount0_gap :
    (a b l x y : ℕ)
    → l < u128_mod
    → amount0_delta a b l up ≡ ok x
    → amount0_delta a b l toward_zero ≡ ok y
    → (y ≤ x) × (x ≤ y + 1)
amount0_gap a b l x y s e f =
    let (pa, pb) = amount0_positive a b l x up e in
    let n = l * q96 * (max a b - min a b) in
    let d = max a b * min a b in
    let ma : 0 < max a b = omega arith in
    let mi : 0 < min a b = omega arith in
    let (p, q) = round_gap n d (grind arith) in
    let ex : ok x ≡ ok (round_div n d up) = sym e ∙ amount0_delta-exact a b l up pa pb s in
    let ey : ok y ≡ ok (round_div n d toward_zero) =
      sym f ∙ amount0_delta-exact a b l toward_zero pa pb s in
    let vx : x ≡ round_div n d up = cc in
    let vy : y ≡ round_div n d toward_zero = cc in (omega arith, omega arith)

-- A leg paid in and the leg taken out: nothing or one atom is lost.
abbrev pub Short : ℤ → ℤ → Type 0
Short paid taken = (paid +ℤ taken ≤ℤ pos 0) × (negsuc 0 ≤ℤ paid +ℤ taken)

still : (u u' : ℤ) → pos 0 ≡ u → pos 0 ≡ u' → Short u u'
still u u' a b =
    let s = +ℤ_parts u u' in
    omega (int_laws, ap pos_part a, ap neg_part a, ap pos_part b, ap neg_part b)

Short-cong : (x x' p p' : ℤ) → x ≡ p → x' ≡ p' → Short x x' → Short p p'
Short-cong x x' p p' a b s = subst (λ k. Short k p') a (subst (λ k. Short x k) b s)

module _ (l : ℕ) (removal : ℤ) (small : l < u128_mod) (negative : is_neg removal ≡ true)
    (same : abs removal ≡ l) where
  legs-Short :
      (x y : ℕ) (paid taken : ℤ)
      → (y ≤ x) × (x ≤ y + 1)
      → signed_leg x (pos l) ≡ ok paid
      → signed_leg y removal ≡ ok taken
      → Short paid taken
  unfolding signed_leg
  legs-Short x y paid taken g e f =
      let a : paid ≡ neg (pos x) = ground arith in
      let b : taken ≡ pos y = ground arith in
      let n = neg_parts (pos x) in
      let s = +ℤ_parts paid taken in
      omega (int_laws, ap pos_part a, ap neg_part a, ap pos_part b, ap neg_part b)

  leg0 :
      (a b : ℕ) (paid taken : ℤ)
      → amount0_change a b (pos l) ≡ ok paid
      → amount0_change a b removal ≡ ok taken
      → Short paid taken
  unfolding amount0_change change_rounding
  leg0 a b paid taken e f =
      let whole : l + 0 ≡ l = omega arith in
      let (x, ex, sx) = >>=-eq-ok (amount0_delta a b (l + 0) up) (λ v. signed_leg v (pos l)) e in
      let (y, ey, sy) =
        >>=-eq-ok (amount0_delta a b (abs removal) (if is_neg removal then toward_zero else up))
          (λ v. signed_leg v removal) f in
      legs-Short x y paid taken
        (amount0_gap a b l x y small (ap (λ k. amount0_delta a b k up) (sym whole) ∙ ex)
          (rw (negative, same) at ey))
        sx sy

  leg1 :
      (a b : ℕ) (paid taken : ℤ)
      → amount1_change a b (pos l) ≡ ok paid
      → amount1_change a b removal ≡ ok taken
      → Short paid taken
  unfolding amount1_change change_rounding
  leg1 a b paid taken e f =
      let whole : l + 0 ≡ l = omega arith in
      let (x, ex, sx) = >>=-eq-ok (amount1_delta a b (l + 0) up) (λ v. signed_leg v (pos l)) e in
      let (y, ey, sy) =
        >>=-eq-ok (amount1_delta a b (abs removal) (if is_neg removal then toward_zero else up))
          (λ v. signed_leg v removal) f in
      legs-Short x y paid taken
        (amount1_gap a b l x y (ap (λ k. amount1_delta a b k up) (sym whole) ∙ ex)
          (rw (negative, same) at ey))
        sx sy

  legs_round_trip :
      (sp : ℕ) (tick : ℤ) (range : TickRange) (sa sb : ℕ) (p p' u u' : ℤ)
      → change_legs sp tick range sa sb (pos l) ≡ ok (p, u)
      → change_legs sp tick range sa sb removal ≡ ok (p', u')
      → Short p p' × Short u u'
  unfolding change_legs
  legs_round_trip sp tick range sa sb p p' u u' e f = elim (Bool-cases (ltb_ℤ tick range.lower)) [
    | inl c ↦
        let (x, ex, qx) = >>=-eq-ok (amount0_change sa sb (pos l)) _ (rw c at e) in
        let (y, ey, qy) = >>=-eq-ok (amount0_change sa sb removal) _ (rw c at f) in
        (Short-cong x y p p' (cc) (cc) (leg0 sa sb x y ex ey), still u u' (cc) (cc))
    | inr c ↦ elim (Bool-cases (ltb_ℤ tick range.upper)) [
      | inl d ↦
          let (x, ex, qx) = >>=-eq-ok (amount0_change sp sb (pos l)) _ (rw (c, d) at e) in
          let (y, ey, qy) = >>=-eq-ok (amount0_change sp sb removal) _ (rw (c, d) at f) in
          let (v, ev, qv) = >>=-eq-ok (amount1_change sa sp (pos l)) _ qx in
          let (w, ew, qw) = >>=-eq-ok (amount1_change sa sp removal) _ qy in
          (
            Short-cong x y p p' (cc) (cc) (leg0 sp sb x y ex ey),
            Short-cong v w u u' (cc) (cc) (leg1 sa sp v w ev ew),
          )
      | inr d ↦
          let (v, ev, qv) = >>=-eq-ok (amount1_change sa sb (pos l)) _ (rw (c, d) at e) in
          let (w, ew, qw) = >>=-eq-ok (amount1_change sa sb removal) _ (rw (c, d) at f) in
          (still p p' (cc) (cc), Short-cong v w u u' (cc) (cc) (leg1 sa sb v w ev ew))
    ]
  ]

-- Adding liquidity to a range and removing it at the same price and tick gives each leg back, or one
-- atom less, wherever the tick stands to the range.
pub change_round_trip :
    (sqrt_price l : ℕ) (tick : ℤ) (range : TickRange) (p p' u u' : ℤ)
    → 0 < l
    → l < u128_mod
    → liquidity_change_delta sqrt_price tick range (pos l) ≡ ok (p, u)
    → liquidity_change_delta sqrt_price tick range (neg (pos l)) ≡ ok (p', u')
    → Short p p' × Short u u'
unfolding liquidity_change_delta neg
change_round_trip sqrt_price l tick range p p' u u' h small e f =
    elim (Bool-cases (sqrt_price == 0)) [
      | inl c ↦ ground arith
      | inr c ↦
          let (s, es, q) = >>=-eq-ok (sqrt_bounds range) _ (rw c at e) in
          let (t, et, r) = >>=-eq-ok (sqrt_bounds range) _ (rw c at f) in
          let st : t ≡ s = cc in
          legs_round_trip l (neg (pos l)) small (ground arith) (ground arith) sqrt_price tick range
            s.0 s.1 p p' u u' q
            (ap (λ (k : ℕ × ℕ). change_legs sqrt_price tick range k.0 k.1 (neg (pos l))) (sym st)
              ∙ r)
    ]
