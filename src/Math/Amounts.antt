-- ===== src/Math/Amounts.antt =====
-- The amounts between two square-root prices: the helpers at the end of src/math/swap.rs.
pub mod Exact
pub mod Favour
pub mod Same
use perpcity_rust_sdk.Base.{
  ℕ, ◌+◌, ◌-◌, ◌*◌, ◌/◌, ◌≡◌, Bool, true, false, ltb, leb, ◌==◌, if◌then◌else◌,
}
use perpcity_rust_sdk.Base.Int.{ℤ, pos}
use perpcity_rust_sdk.Base.Result.{Result, ok, err, overflow, invalid_price, ◌>>=◌}
use perpcity_rust_sdk.Math.FixedPoint.{
  Rounding, toward_zero, up, round_div, ceil_div, mul_div, u512_to_u256,
}

-- 2^96 and 2^127
abbrev pub q96 : ℕ
q96 = 79228162514264337593543950336

abbrev pub i128_half : ℕ
i128_half = 170141183460469231731687303715884105728

-- `div` is the quotient of `round_div`. A liquidity is below 2^128, so that its shift by 96 bits is
-- exact.
unfoldable pub amount0_delta : ℕ → ℕ → ℕ → Rounding → Result ℕ
amount0_delta a b liquidity rounding =
    let lower = if leb a b then a else b in
    let upper = if leb a b then b else a in
    if lower == 0
    then err invalid_price
    else (mul_div (liquidity * q96) (upper - lower) upper rounding >>= λ first.
        ok (round_div first lower rounding))

unfoldable pub amount1_delta : ℕ → ℕ → ℕ → Rounding → Result ℕ
amount1_delta a b liquidity rounding =
    mul_div liquidity (if leb b a then a - b else b - a) q96 rounding

-- The denominator: a 512-bit sum, or a difference that is checked.
unfoldable pub sqrt_denominator : ℕ → ℕ → Bool → Result ℕ
sqrt_denominator numerator product true = ok (numerator + product)
sqrt_denominator numerator product false =
    if leb product numerator then ok (numerator - product) else err overflow

unfoldable pub next_sqrt_from_amount0 : ℕ → ℕ → ℕ → Bool → Result ℕ
unfolding sqrt_denominator
next_sqrt_from_amount0 sqrt liquidity amount add =
    if amount == 0
    then ok sqrt
    else (sqrt_denominator (liquidity * q96) (amount * sqrt) add >>= λ denominator.
        if denominator == 0
        then err overflow
        else u512_to_u256 (ceil_div (liquidity * q96 * sqrt) denominator))

unfoldable pub u256_to_i128 : ℕ → Result ℕ
u256_to_i128 value = if ltb value i128_half then ok value else err overflow
