-- ===== src/Math/FixedPoint.antt =====
-- Exact fixed-point arithmetic: src/units/fixed_point.rs. A U256 is a number below 2^256, an I256 an
-- integer from -2^255 to 2^255 - 1.
pub mod Laws
pub mod Exp
use perpcity_rust_sdk.Base.{
  ℕ, ◌+◌, ◌-◌, ◌*◌, ◌/◌, Bool, true, false, ltb, leb, ◌==◌, ◌&&◌, not, if◌then◌else◌,
}
use perpcity_rust_sdk.Base.Int.{ℤ, pos, negsuc, ◌+ℤ◌, ◌-ℤ◌, neg, abs, is_neg, pos_part, neg_part}
use perpcity_rust_sdk.Base.Result.{Result, ok, err, overflow, ◌>>=◌}

-- 2^256 and 2^255
abbrev pub u256_mod : ℕ
u256_mod = 115792089237316195423570985008687907853269984665640564039457584007913129639936

abbrev pub i256_half : ℕ
i256_half = 57896044618658097711785492504343953926634992332820282019728792003956564819968

pub data Rounding : Type 0 where
  toward_zero up : Rounding

-- `div_ceil`
abbrev pub ceil_div : ℕ → ℕ → ℕ
ceil_div n d = (n + (d - 1)) / d

-- The quotient of the `match` on the rounding.
unfoldable pub round_div : ℕ → ℕ → Rounding → ℕ
round_div n d up = ceil_div n d
round_div n d toward_zero = n / d

unfoldable pub u512_to_u256 : ℕ → Result ℕ
u512_to_u256 value = if ltb value u256_mod then ok value else err overflow

unfoldable pub mul_div : ℕ → ℕ → ℕ → Rounding → Result ℕ
unfolding round_div u512_to_u256
mul_div a b d rounding =
    if d == 0 then err overflow else u512_to_u256 (round_div (a * b) d rounding)

-- `I256::try_from`
unfoldable pub to_i256 : ℕ → Result ℤ
to_i256 v = if ltb v i256_half then ok (pos v) else err overflow

abbrev pub same_sign : ℤ → ℤ → Bool
same_sign (pos a) (pos b) = true
same_sign (pos a) (negsuc b) = false
same_sign (negsuc a) (pos b) = false
same_sign (negsuc a) (negsuc b) = true

-- The rounding of the magnitude: upwards only for a result that is not negative.
abbrev pub magnitude_rounding : Rounding → Bool → Rounding
magnitude_rounding up true = up
magnitude_rounding up false = toward_zero
magnitude_rounding toward_zero b = toward_zero

unfoldable pub s_full_mul_div : ℤ → ℤ → ℕ → Rounding → Result ℤ
unfolding mul_div to_i256
s_full_mul_div a b d rounding =
    let same = same_sign a b in
    mul_div (abs a) (abs b) d (magnitude_rounding rounding same) >>= λ magnitude.
    to_i256 magnitude >>= λ m. ok (if same then m else neg m)

-- Whether an integer is an I256.
abbrev pub fits_i256 : ℤ → Bool
fits_i256 a = ltb (pos_part a) i256_half && leb (neg_part a) i256_half

unfoldable pub add_i : ℤ → ℤ → Result ℤ
add_i a b = if fits_i256 (a +ℤ b) then ok (a +ℤ b) else err overflow

unfoldable pub sub_i : ℤ → ℤ → Result ℤ
sub_i a b = if fits_i256 (a -ℤ b) then ok (a -ℤ b) else err overflow

unfoldable pub add_u : ℕ → ℕ → Result ℕ
add_u a b = if ltb (a + b) u256_mod then ok (a + b) else err overflow

unfoldable pub sub_u : ℕ → ℕ → Result ℕ
sub_u a b = if leb b a then ok (a - b) else err overflow
