-- ===== src/Math/Taker/Agreement.antt =====
-- The two liquidation tests agree: the one on the health as computed, and the one that moves the mark.
use perpcity_rust_sdk.Base.{
  Bool-cases, inl, inr, ℕ, ◌+◌, ◌-◌, ◌*◌, ◌/◌, ◌%◌, ◌<◌, ◌≡◌, sym, ap, subst, ◌∙◌, Bool, true, not,
  ltb, some, arith,
}
use perpcity_rust_sdk.Base.Int.{ℤ, pos, negsuc, ◌+ℤ◌, abs, pos_part, neg_part, is_neg, +ℤ_parts}
use perpcity_rust_sdk.Base.Word.{u128_mod}
use perpcity_rust_sdk.Base.Result.{ok, ◌>>=◌, >>=-eq-ok}
use perpcity_rust_sdk.Math.Amounts.{q96, i128_half}
use perpcity_rust_sdk.Math.FixedPoint.{to_i256, s_full_mul_div, add_i, sub_i, toward_zero, up}
use perpcity_rust_sdk.Math.Liquidity.{narrow}
use perpcity_rust_sdk.Math.Taker.{
  TakerMarketSnapshot, TakerState, TakerHealth, wrap_i128, fits_i128, taker_health,
  is_liquidatable_at, is_liquidatable, equity, settled_margin, fixed_part, usdc_delta, util_owed_of,
  is_healthy,
}
use perpcity_rust_sdk.Math.Taker.Health.{
  value_of, signed_value, s_full_mul_div-value, to_i256-ok, add_i-ok, usdc_delta-ok, narrow-ok,
  abs-signed_value, is_liquidatable_at-ok, liquidatable_at_lem,
}

residue_lem :
    (p n a k l : ℕ)
    → a < u128_mod
    → a + n + k * u128_mod ≡ p + l * u128_mod
    → (p + (u128_mod - n % u128_mod)) % u128_mod ≡ a
residue_lem p n a k l h e = omega arith

residue_congruent :
    (p n : ℕ)
    → (k l : ℕ) × ((p + (u128_mod - n % u128_mod)) % u128_mod + n + k * u128_mod ≡ p + l * u128_mod)
residue_congruent p n = ((p + (u128_mod - n % u128_mod)) / u128_mod, 1 + n / u128_mod, omega arith)

-- Two integers that differ by a multiple of 2^128.
abbrev pub Congruent : ℤ → ℤ → Type 0
Congruent a b =
    (k l : ℕ) × (pos_part a + neg_part b + k * u128_mod ≡ neg_part a + pos_part b + l * u128_mod)

wrap_i128-Congruent : (z : ℤ) → Congruent (wrap_i128 z) z
unfolding wrap_i128
wrap_i128-Congruent z =
    let r = (pos_part z + (u128_mod - neg_part z % u128_mod)) % u128_mod in
    let (k, l, e) = residue_congruent (pos_part z) (neg_part z) in
    elim (Bool-cases (ltb r i128_half)) [
      | inl c ↦ (k, l, ground arith)
      | inr c ↦ (k + 1, l, ground arith)
    ]

-- An i128 is what anything that differs from it by a multiple of 2^128 wraps to.
wrap_i128_unique : (z w : ℤ) → fits_i128 w ≡ true → Congruent w z → wrap_i128 z ≡ w
unfolding wrap_i128
wrap_i128_unique z (pos a) fits (k, l, e) =
    let r = residue_lem (pos_part z) (neg_part z) a k l (ground arith) (omega (arith, e)) in
    ground arith
wrap_i128_unique z (negsuc b) fits (k, l, e) =
    let low : b < i128_half = ground arith in
    let r =
      residue_lem (pos_part z) (neg_part z) (u128_mod - b - 1) k (l + 1) (omega arith)
        (omega (arith, e, low)) in
    ground arith

-- Congruence of the two ways to add up equity.
equity_Congruent : (s d v f t : ℤ) → Congruent f (s +ℤ d) → t ≡ v +ℤ d → Congruent (f +ℤ v) (s +ℤ t)
equity_Congruent s d v f t (k, l, e) h =
    let p = ap pos_part h in
    let n = ap neg_part h in
    (k, l, omega (arith, e, p, n, +ℤ_parts f v, +ℤ_parts s t, +ℤ_parts s d, +ℤ_parts v d))

-- The health, from its legs.
abbrev health_of : TakerMarketSnapshot → TakerState → ℕ → ℤ → ℤ → ℕ → TakerHealth
health_of m taker v u f w = record {
  mark = m.mark;
  delta_perp = taker.delta_perp;
  delta_usd = taker.delta_usd;
  margin = taker.margin;
  funding_owed = f;
  util_owed = w;
  position_value = v;
  unrealized_pnl = u;
  liquidation_margin_ratio = taker.liquidation_margin_ratio;
}

-- The value and the unrealized part of a health are those of its mark.
abbrev HasLegs : TakerHealth → Type 0
HasLegs h =
    (h.position_value ≡ value_of h h.mark)
    × (h.unrealized_pnl ≡ signed_value (is_neg h.delta_perp) (value_of h h.mark) +ℤ h.delta_usd)

health_of-HasLegs :
    (m : TakerMarketSnapshot) (taker : TakerState) (v : ℕ) (z t u f : ℤ) (w : ℕ) (h : TakerHealth)
    → z ≡ signed_value (is_neg taker.delta_perp) (abs taker.delta_perp * m.mark / q96)
    → v ≡ abs z
    → t ≡ z +ℤ taker.delta_usd
    → u ≡ t
    → ok (health_of m taker v u f w) ≡ ok h
    → HasLegs h
health_of-HasLegs m taker v z t u f w h ez ev et eu e =
    let n = abs taker.delta_perp * m.mark / q96 in
    let size = abs-signed_value (is_neg taker.delta_perp) n in
    let made : HasLegs (health_of m taker v u f w) =
      (ev ∙ ap abs ez ∙ size, eu ∙ et ∙ ap (λ x. x +ℤ taker.delta_usd) ez) in
    subst HasLegs (ok_injective e) made
  where
    ok_injective : {a b : TakerHealth} → ok a ≡ ok b → a ≡ b
    ok_injective q = cc

health_legs :
    (m : TakerMarketSnapshot) (taker : TakerState) (h : TakerHealth)
    → taker_health m taker ≡ ok h
    → HasLegs h
unfolding taker_health
health_legs m taker h e =
    let (k, ek, e1) = >>=-eq-ok (to_i256 m.mark) _ e in
    let (z, ez, e2) = >>=-eq-ok (s_full_mul_div taker.delta_perp k q96 toward_zero) _ e1 in
    let (v, ev, e3) = >>=-eq-ok (narrow (abs z)) _ e2 in
    let (u, eu, e4) = >>=-eq-ok (add_i z taker.delta_usd >>= usdc_delta) _ e3 in
    let (t, et, eq) = >>=-eq-ok (add_i z taker.delta_usd) usdc_delta eu in
    let (g, eg, e5) = >>=-eq-ok (sub_i m.funding taker.last_cuml_funding) _ e4 in
    let (f, ef, e6) = >>=-eq-ok (s_full_mul_div taker.delta_perp g q96 up >>= usdc_delta) _ e5 in
    let (w, ew, e7) = >>=-eq-ok (util_owed_of m taker) _ e6 in
    let mark_is = (to_i256-ok m.mark k ek).1 in
    let z_is =
      s_full_mul_div-value taker.delta_perp m.mark z
        (ap (λ x. s_full_mul_div taker.delta_perp x q96 toward_zero) (sym mark_is) ∙ ez) in
    let v_is = narrow-ok (abs z) v ev in
    let t_is = add_i-ok z taker.delta_usd t et in
    let u_is = (usdc_delta-ok t u eq).0 in
    health_of-HasLegs m taker v z t u f w h z_is v_is t_is u_is e7

-- For a health as `taker_health` computes it: where the test that moves the mark has an answer at the
-- health's own mark, it is that of the test on the equity and the value.
pub taker_health-agrees :
    (m : TakerMarketSnapshot) (taker : TakerState) (h : TakerHealth) (b : Bool)
    → taker_health m taker ≡ ok h
    → is_liquidatable_at h h.mark ≡ some b
    → b ≡ is_liquidatable h
unfolding is_liquidatable equity fixed_part
taker_health-agrees m taker h b e at =
    let (value, pnl) = health_legs m taker h e in
    let v = value_of h h.mark in
    let s = signed_value (is_neg h.delta_perp) v in
    let (verdict_is, fits) = liquidatable_at_lem h h.mark b (is_liquidatable_at-ok h h.mark b at) in
    let same = wrap_i128_unique (settled_margin h +ℤ h.unrealized_pnl) (fixed_part h +ℤ s) fits (
      equity_Congruent (settled_margin h) h.delta_usd s (fixed_part h) h.unrealized_pnl
        (wrap_i128-Congruent (settled_margin h +ℤ h.delta_usd)) pnl) in
    verdict_is
    ∙ ap (λ x. not (is_healthy x v h.liquidation_margin_ratio)) (sym same)
    ∙ ap (λ x. not (is_healthy (equity h) x h.liquidation_margin_ratio)) (sym value)
