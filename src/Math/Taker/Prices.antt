-- ===== src/Math/Taker/Prices.antt =====
-- The marks at which a taker is liquidated.
use perpcity_rust_sdk.Base.{
  ℕ, ◌+◌, ◌-◌, ◌*◌, ◌≤◌, ◌≡◌, ◌⊎◌, ◌↔◌, refl, sym, ap, subst, ◌∙◌, some, Bool, true, false, leb,
  arith, Bool-cases, inl, inr,
}
use perpcity_rust_sdk.Base.Division.{div_bounds}
use perpcity_rust_sdk.Base.Int.{ℤ, pos, ◌+ℤ◌, abs, pos_part, neg_part, is_neg, neg}
use perpcity_rust_sdk.Math.Amounts.{q96}
use perpcity_rust_sdk.Math.Taker.{TakerHealth, fixed_part, is_liquidatable_at, one_e6}
use perpcity_rust_sdk.Math.Taker.Turn.{IsMonotone, Beyond}
use perpcity_rust_sdk.Math.Taker.Health.{
  value_of, signed_value, is_healthy_iff, liquidatable_at_lem, is_liquidatable_at-ok, le-div_iff,
}

value_of_mono : (h : TakerHealth) (x y : ℕ) → x ≤ y → value_of h x ≤ value_of h y
value_of_mono h x y le =
    let low = (div_bounds (abs h.delta_perp * x) q96 (omega arith)).0 in
    (le-div_iff (abs h.delta_perp * y) q96 (value_of h x) (omega arith)).1 (grind arith)

-- The equity at a mark.
abbrev pub equity_at : TakerHealth → ℕ → ℤ
equity_at h mark = fixed_part h +ℤ signed_value (is_neg h.delta_perp) (value_of h mark)

-- Whether the test passes, in exact arithmetic.
abbrev pub Passes : TakerHealth → ℕ → Type 0
Passes h mark =
    h.liquidation_margin_ratio * (value_of h mark + 1) ≤ pos_part (equity_at h mark) * one_e6

pub fails_iff :
    (h : TakerHealth) (x : ℕ) (b : Bool)
    → is_liquidatable_at h x ≡ some b
    → (b ≡ false) ↔ Passes h x
fails_iff h x b e =
    let (v, fits) = liquidatable_at_lem h x b (is_liquidatable_at-ok h x b e) in
    let exact =
      is_healthy_iff (equity_at h x) (value_of h x) h.liquidation_margin_ratio (ground arith) in
    (λ k. exact.0 (ground arith), λ k. let t = exact.1 k in ground arith)

pub long_part : (f : ℤ) (v : ℕ) → pos_part (f +ℤ pos v) ≡ pos_part f + v - neg_part f
unfolding ◌+ℤ◌
long_part f v = ground arith

short_part : (f : ℤ) (v : ℕ) → pos_part (f +ℤ neg (pos v)) ≡ pos_part f - (neg_part f + v)
unfolding ◌+ℤ◌ neg
short_part f v = ground arith

split_product : (r w d : ℕ) → r * (w + d + 1) ≡ r * (w + 1) + r * d
split_product r w d = grind arith

-- A test that passes passes nearer the mark.
long_passes :
    (p n r v w : ℕ)
    → r ≤ one_e6
    → w ≤ v
    → r * (w + 1) ≤ (p + w - n) * one_e6
    → r * (v + 1) ≤ (p + v - n) * one_e6
long_passes p n r v w hr le h =
    let d = v - w in
    let grown : v ≡ w + d = omega arith in
    let dear : r * d ≤ one_e6 * d = grind arith in
    let split = subst (λ x. r * (x + 1) ≡ r * (w + 1) + r * d) (sym grown) (split_product r w d) in
    elim (Bool-cases (leb n (p + w))) [
      | inl c ↦ ground arith
      | inr c ↦ let free : r ≡ 0 = grind arith in grind arith
    ]

short_passes :
    (p n r v w : ℕ)
    → v ≤ w
    → r * (w + 1) ≤ (p - (n + w)) * one_e6
    → r * (v + 1) ≤ (p - (n + v)) * one_e6
short_passes p n r v w le h = let less : r * (v + 1) ≤ r * (w + 1) = grind arith in omega arith

-- Where a turn exists: a short, or a long whose ratio is at most 100%.
abbrev pub Turns : TakerHealth → Type 0
Turns h = (is_neg h.delta_perp ≡ true) ⊎ (h.liquidation_margin_ratio ≤ one_e6)

Passes-nearer :
    (h : TakerHealth) (side : Bool) (x y : ℕ)
    → is_neg h.delta_perp ≡ side
    → (side ≡ true) ⊎ (h.liquidation_margin_ratio ≤ one_e6)
    → Beyond (is_liquidatable_at h) side x y
    → Passes h y
    → Passes h x
Passes-nearer h true x y es turns far p =
    let f = fixed_part h in
    let part = λ (m : ℕ).
      ap (λ b. pos_part (f +ℤ signed_value b (value_of h m))) es ∙ short_part f (value_of h m) in
    let le = value_of_mono h x y far in
    subst (λ k. h.liquidation_margin_ratio * (value_of h x + 1) ≤ k * one_e6) (sym (part x))
      (short_passes (pos_part f) (neg_part f) h.liquidation_margin_ratio (value_of h x)
        (value_of h y) le
        (subst (λ k. h.liquidation_margin_ratio * (value_of h y + 1) ≤ k * one_e6) (part y) p))
Passes-nearer h false x y es (inl absurdity) far p = absurd (ground arith)
Passes-nearer h false x y es (inr small) far p =
    let f = fixed_part h in
    let part = λ (m : ℕ).
      ap (λ b. pos_part (f +ℤ signed_value b (value_of h m))) es ∙ long_part f (value_of h m) in
    let le = value_of_mono h y x far in
    subst (λ k. h.liquidation_margin_ratio * (value_of h x + 1) ≤ k * one_e6) (sym (part x))
      (long_passes (pos_part f) (neg_part f) h.liquidation_margin_ratio (value_of h x)
        (value_of h y) small le
        (subst (λ k. h.liquidation_margin_ratio * (value_of h y + 1) ≤ k * one_e6) (part y) p))

-- A short that is liquidatable at a mark is liquidatable at every higher one that has an answer, and
-- a long whose ratio is at most 100% at every lower one.
pub is_liquidatable_at-IsMonotone :
    (h : TakerHealth) → Turns h → IsMonotone (is_liquidatable_at h) (is_neg h.delta_perp)
is_liquidatable_at-IsMonotone h turns x y true far ex ey = refl
is_liquidatable_at-IsMonotone h turns x y false far ex ey =
    let passes = (fails_iff h y false ey).0 refl in
    let nearer = Passes-nearer h (is_neg h.delta_perp) x y refl turns far passes in
    let no = (fails_iff h x true ex).1 nearer in absurd (ground arith)
