-- ===== src/Math/Tick/Reference.antt =====
-- The 128-bit path of `get_sqrt_ratio_at_tick` computes the reference formula.
use perpcity_rust_sdk.Base.{
  ℕ, ◌+◌, ◌*◌, ◌/◌, ◌%◌, ◌<◌, ◌≡◌, refl, sym, ap, ◌∙◌, List, [], ◌∷◌, false, ltb, leb,
  if◌then◌else◌, arith, All,
}
use mathlib.Core.Path.{ap₂}
use native.Mathlib.Nat.{div-lt_iff_lt-mul}
use perpcity_rust_sdk.Base.Int.{ℤ, abs}
use perpcity_rust_sdk.Base.Result.{Result, ok, err, invalid_tick_range}
use perpcity_rust_sdk.Base.Word.{u128_mod, u64_mod}
use perpcity_rust_sdk.Math.Tick.{
  carry, mul_shift_128, Ratio, bit_set, apply_bit, apply_bits, magics, unit_ratio, finish_ratio,
  get_sqrt_ratio_at_tick, uniswap_max_tick,
}

-- The partial products, their carries and the shift give the high half of the whole product.
shift_parts :
    (ll lh hl hh : ℕ)
    → ll < u128_mod
    → lh < u128_mod
    → hl < u128_mod
    → let x = (lh + hl) % u128_mod in
      let y = x + ll / u64_mod in
      hh
        + y % u128_mod / u64_mod
        + (carry (leb u128_mod (lh + hl)) + carry (leb u128_mod y)) * u64_mod
      ≡ (ll + (lh + hl) * u64_mod + hh * u128_mod) / u128_mod
shift_parts ll lh hl hh a b c = ground arith

product_parts :
    (a1 a0 b1 b0 : ℕ)
    → (a1 * u64_mod + a0) * (b1 * u64_mod + b0)
      ≡ a0 * b0 + (a0 * b1 + a1 * b0) * u64_mod + a1 * b1 * u128_mod
product_parts a1 a0 b1 b0 = omega arith

small_product : (a b : ℕ) → a < u64_mod → b < u64_mod → a * b < u128_mod
small_product a b h k = grind arith

-- `mul_shift_128` is the product of two 128-bit numbers, shifted right by 128 bits.
pub mul_shift_128-eq :
    (a b : ℕ) → a < u128_mod → b < u128_mod → mul_shift_128 a b ≡ a * b / u128_mod
unfolding mul_shift_128
mul_shift_128-eq a b ha hb =
    let a1 = a / u64_mod in
    let a0 = a % u64_mod in
    let b1 = b / u64_mod in
    let b0 = b % u64_mod in
    let whole : a * b ≡ (a1 * u64_mod + a0) * (b1 * u64_mod + b0) =
      ap₂ (λ x y. x * y) (omega arith) (omega arith) in
    shift_parts (a0 * b0) (a0 * b1) (a1 * b0) (a1 * b1)
      (small_product a0 b0 (omega arith) (omega arith))
      (small_product a0 b1 (omega arith) (omega arith))
      (small_product a1 b0 (omega arith) (omega arith))
    ∙ ap (λ x. x / u128_mod) (sym (whole ∙ product_parts a1 a0 b1 b0))

-- The reference: a ratio in Q128.128 that starts at one, 2^128, and is multiplied by the constant of
-- each bit that is set.
abbrev pub reference_bits : ℕ → List (ℕ × ℕ) → ℕ → ℕ
reference_bits abs_tick [] ratio = ratio
reference_bits abs_tick ((bit, magic) ∷ ms) ratio =
    reference_bits abs_tick ms (if bit_set abs_tick bit then ratio * magic / u128_mod else ratio)

abbrev pub reference : ℤ → Result ℕ
reference tick =
    if ltb uniswap_max_tick (abs tick)
    then err (invalid_tick_range tick tick)
    else ok (finish_ratio tick (reference_bits (abs tick) magics u128_mod))

-- The number that a ratio stands for.
abbrev value : Ratio → ℕ
value r = if r.is_unit then u128_mod else r.ratio

abbrev IsSmall : Ratio → Type 0
IsSmall r = r.is_unit ≡ false → r.ratio < u128_mod

shifted_small : (a b : ℕ) → a < u128_mod → b < u128_mod → a * b / u128_mod < u128_mod
shifted_small a b ha hb = (div-lt_iff_lt-mul {k = u128_mod} (omega arith)).1 (grind arith)

apply_bit-value :
    (abs_tick bit magic : ℕ) (r : Ratio)
    → magic < u128_mod
    → IsSmall r
    → IsSmall (apply_bit abs_tick bit magic r)
      × (value (apply_bit abs_tick bit magic r)
          ≡ (if bit_set abs_tick bit then value r * magic / u128_mod else value r))
unfolding apply_bit
apply_bit-value abs_tick bit magic r hm hs =
    ground (arith, mul_shift_128-eq r.ratio magic, shifted_small r.ratio magic)

apply_bits-value :
    (abs_tick : ℕ) (ms : List (ℕ × ℕ)) (r : Ratio)
    → All (λ (m : ℕ × ℕ). m.1 < u128_mod) ms
    → IsSmall r
    → value (apply_bits abs_tick ms r) ≡ reference_bits abs_tick ms (value r)
unfolding apply_bits
apply_bits-value abs_tick [] r a h = refl
apply_bits-value abs_tick ((bit, magic) ∷ ms) r a h =
    let (s, v) = apply_bit-value abs_tick bit magic r a.0 h in
    apply_bits-value abs_tick ms (apply_bit abs_tick bit magic r) a.1 s
    ∙ ap (reference_bits abs_tick ms) v

-- On every tick, in range or not, the path with 128-bit numbers and the unit flag returns what the
-- reference formula returns.
pub get_sqrt_ratio_at_tick-eq-reference : (tick : ℤ) → get_sqrt_ratio_at_tick tick ≡ reference tick
unfolding get_sqrt_ratio_at_tick
get_sqrt_ratio_at_tick-eq-reference tick =
    rw (apply_bits-value (abs tick) magics unit_ratio (omega arith) (λ e. cc))
