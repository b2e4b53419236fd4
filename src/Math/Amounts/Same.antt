-- ===== src/Math/Amounts/Same.antt =====
-- Between equal prices nothing moves.
use perpcity_rust_sdk.Base.{ℕ, ◌-◌, ◌*◌, ◌<◌, ◌≡◌, sym, ◌∙◌, ap, ◌==◌, arith, Bool-cases, inl, inr}
use native.Mathlib.Nat.{div-lt_iff_lt-mul}
use perpcity_rust_sdk.Base.Result.{ok, ◌>>=◌, >>=-eq-ok}
use perpcity_rust_sdk.Math.FixedPoint.{Rounding, toward_zero, up, mul_div, u512_to_u256, round_div}
use perpcity_rust_sdk.Math.FixedPoint.Laws.{ceil_div-le_iff}
use perpcity_rust_sdk.Math.Amounts.{amount0_delta, amount1_delta, q96}

pub round_div_zero : (d : ℕ) (r : Rounding) → 0 < d → round_div 0 d r ≡ 0
unfolding round_div
round_div_zero d toward_zero h =
    omega (arith, (div-lt_iff_lt-mul {k = d} {x = 0} {y = 1} h).1 (omega arith))
round_div_zero d up h = omega (arith, (ceil_div-le_iff 0 d 0 h).1 (omega arith))

pub mul_div_zero : (a d : ℕ) (r : Rounding) (n : ℕ) → mul_div a 0 d r ≡ ok n → n ≡ 0
unfolding mul_div u512_to_u256
mul_div_zero a d r n e =
    let z : a * 0 ≡ 0 = omega arith in
    ground (arith, λ (h : 0 < d). round_div_zero d r h, ap (λ k. round_div k d r) z)

pub amount1_same : (s l : ℕ) (r : Rounding) (n : ℕ) → amount1_delta s s l r ≡ ok n → n ≡ 0
unfolding amount1_delta
amount1_same s l r n e = mul_div_zero l q96 r n (ap (λ k. mul_div l k q96 r) (ground arith) ∙ e)

pub amount0_same : (s l : ℕ) (r : Rounding) (n : ℕ) → amount0_delta s s l r ≡ ok n → n ≡ 0
unfolding amount0_delta
amount0_same s l r n e = elim (Bool-cases (s == 0)) [
  | inl c ↦ ground arith
  | inr c ↦
      let zero_diff : s - s ≡ 0 = omega arith in
      let e' : (mul_div (l * q96) (s - s) s r >>= λ first. ok (round_div first s r)) ≡ ok n =
        ground arith in
      let (f, q, g) =
        >>=-eq-ok (mul_div (l * q96) (s - s) s r) (λ first. ok (round_div first s r)) e' in
      let fz =
        mul_div_zero (l * q96) s r f (ap (λ k. mul_div (l * q96) k s r) (sym zero_diff) ∙ q) in
      ground (arith, ap (λ k. round_div k s r) fz, λ (h : 0 < s). round_div_zero s r h)
]
