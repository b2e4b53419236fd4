-- ===== src/Math/Taker/Health.antt =====
-- What the liquidation test of a taker says of the marks.
use perpcity_rust_sdk.Base.{
  ℕ, ◌+◌, ◌*◌, ◌/◌, ◌≤◌, ◌<◌, ◌≡◌, ◌↔◌, sym, ap, subst, ◌∙◌, some, Bool, true, false, not, ltb,
  arith, Bool-cases, inl, inr,
}
use native.Mathlib.Nat.{div-lt_iff_lt-mul}
use perpcity_rust_sdk.Base.Division.{div_bounds}
use perpcity_rust_sdk.Base.Int.{ℤ, pos, negsuc, ◌+ℤ◌, abs, pos_part, is_neg, neg}
use perpcity_rust_sdk.Base.Result.{ok, Result-cases, ◌>>=◌, >>=-eq-ok}
use perpcity_rust_sdk.Math.FixedPoint.{
  toward_zero, mul_div, s_full_mul_div, to_i256, i256_half, u256_mod, add_i, round_div,
  u512_to_u256,
}
use perpcity_rust_sdk.Math.Amounts.{q96, i128_half}
use perpcity_rust_sdk.Math.Liquidity.{narrow}
use perpcity_rust_sdk.Math.Taker.{
  TakerHealth, is_healthy, usdc_delta, fits_i128, fixed_part, liquidatable_at, is_liquidatable_at,
  one_e6, expected,
}
use perpcity_rust_sdk.Math.Taker.Turn.{IsBounded}

pub is_liquidatable_at-ok :
    (h : TakerHealth) (mark : ℕ) (b : Bool)
    → is_liquidatable_at h mark ≡ some b
    → liquidatable_at h mark ≡ ok b
unfolding is_liquidatable_at
is_liquidatable_at-ok h mark b e = elim (Result-cases (liquidatable_at h mark)) [
  | inl (x, q) ↦ absurd (ground arith)
  | inr (x, q) ↦ ground arith
]

pub to_i256-ok : (v : ℕ) (z : ℤ) → to_i256 v ≡ ok z → (v < i256_half) × (z ≡ pos v)
unfolding to_i256
to_i256-ok v z e = (ground arith, ground arith)

-- No mark from 2^255 on has an answer.
pub is_liquidatable_at-IsBounded : (h : TakerHealth) → IsBounded (is_liquidatable_at h)
unfolding liquidatable_at
is_liquidatable_at-IsBounded h x b e =
    let (m, q, rest) = >>=-eq-ok (to_i256 x) _ (is_liquidatable_at-ok h x b e) in
    (to_i256-ok x m q).0

-- The value of an exposure at a mark is the floor of its size times the mark.
abbrev pub value_of : TakerHealth → ℕ → ℕ
value_of h mark = abs h.delta_perp * mark / q96

-- The value, with the sign of the exposure.
abbrev pub signed_value : Bool → ℕ → ℤ
signed_value true v = neg (pos v)
signed_value false v = pos v

pub s_full_mul_div-value :
    (p : ℤ) (m : ℕ) (z : ℤ)
    → s_full_mul_div p (pos m) q96 toward_zero ≡ ok z
    → z ≡ signed_value (is_neg p) (abs p * m / q96)
unfolding s_full_mul_div mul_div to_i256 round_div u512_to_u256
s_full_mul_div-value (pos n) m z e = ground arith
s_full_mul_div-value (negsuc n) m z e = ground arith

pub abs-signed_value : (b : Bool) (v : ℕ) → abs (signed_value b v) ≡ v
unfolding neg
abs-signed_value true v = ground arith
abs-signed_value false v = omega arith

pub add_i-ok : (a b z : ℤ) → add_i a b ≡ ok z → z ≡ a +ℤ b
unfolding add_i
add_i-ok a b z e = ground arith

pub usdc_delta-ok : (a z : ℤ) → usdc_delta a ≡ ok z → (z ≡ a) × (fits_i128 a ≡ true)
unfolding usdc_delta
usdc_delta-ok a z e = (ground arith, ground arith)

pub narrow-ok : (a n : ℕ) → narrow a ≡ ok n → n ≡ a
unfolding narrow
narrow-ok a n e = ground arith

-- The test at a mark whose exposure is worth `v`.
abbrev pub verdict : TakerHealth → ℕ → Bool
verdict h v =
    not (
      is_healthy (fixed_part h +ℤ signed_value (is_neg h.delta_perp) v) v
        h.liquidation_margin_ratio)

pub liquidatable_at_lem :
    (h : TakerHealth) (mark : ℕ) (b : Bool)
    → liquidatable_at h mark ≡ ok b
    → (b ≡ verdict h (value_of h mark))
      × (fits_i128 (fixed_part h +ℤ signed_value (is_neg h.delta_perp) (value_of h mark)) ≡ true)
unfolding liquidatable_at
liquidatable_at_lem h mark b e =
    let (m, em, e1) = >>=-eq-ok (to_i256 mark) _ e in
    let (z, ez, e2) = >>=-eq-ok (s_full_mul_div h.delta_perp m q96 toward_zero) _ e1 in
    let (q, eqt, e3) = >>=-eq-ok (add_i (fixed_part h) z >>= usdc_delta) _ e2 in
    let (t, et, eq) = >>=-eq-ok (add_i (fixed_part h) z) usdc_delta eqt in
    let (v, ev, e5) = >>=-eq-ok (narrow (abs z)) _ e3 in
    let mark_is = (to_i256-ok mark m em).1 in
    let z_is =
      s_full_mul_div-value h.delta_perp mark z
        (ap (λ x. s_full_mul_div h.delta_perp x q96 toward_zero) (sym mark_is) ∙ ez) in
    let t_is = add_i-ok (fixed_part h) z t et in
    let (q_is, fits) = usdc_delta-ok t q eq in
    let v_is = narrow-ok (abs z) v ev in
    let v_value = abs-signed_value (is_neg h.delta_perp) (value_of h mark) in
    let z_value = ap (λ x. signed_value (is_neg h.delta_perp) x) v_value in
    (cc, subst (λ x. fits_i128 x ≡ true) (t_is ∙ ap (λ x. fixed_part h +ℤ x) z_is) fits)

pub le-div_iff : (n d q : ℕ) → 0 < d → (q ≤ n / d) ↔ (q * d ≤ n)
le-div_iff n d q h =
    let less = div-lt_iff_lt-mul {k = d} {x = n} {y = q} h in
    (λ k. grind (arith, less.1), λ k. grind (arith, less.0))

held_lem :
    (n v : ℕ)
    → n < i128_half
    → expected (mul_div n one_e6 (v + 1) toward_zero) ≡ n * one_e6 / (v + 1)
unfolding mul_div round_div u512_to_u256
held_lem n v h =
    let small = (div_bounds (n * one_e6) (v + 1) (omega arith)).0 in
    let fits : n * one_e6 / (v + 1) < u256_mod = grind arith in ground arith

-- `is_healthy` compares equity in millionths of the value plus one atom with the ratio, without
-- the loss of a division: for an equity within an i128 it holds just when the ratio times the value
-- plus one is at most a million times the equity, a negative equity counting as 0.
pub is_healthy_iff :
    (equity : ℤ) (value ratio : ℕ)
    → pos_part equity < i128_half
    → (is_healthy equity value ratio ≡ true) ↔ (ratio * (value + 1) ≤ pos_part equity * one_e6)
unfolding is_healthy
is_healthy_iff (negsuc n) value ratio h = (λ e. grind arith, λ e. grind arith)
is_healthy_iff (pos n) value ratio h =
    let held = held_lem n value h in
    let least = le-div_iff (n * one_e6) (value + 1) ratio (omega arith) in
    elim (Bool-cases (ltb 0 n)) [
      | inl c ↦ (λ e. least.0 (ground arith), λ e. let k = least.1 e in ground arith)
      | inr c ↦ (λ e. grind arith, λ e. grind arith)
    ]
