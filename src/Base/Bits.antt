-- ===== src/Base/Bits.antt =====
-- Bits of the native numbers.
use Prim.Native.Nat.{digits, differ, bit_and, bit_xor, bit_and-bitwise, bit_xor-bitwise}
use perpcity_rust_sdk.Base.{ℕ, zero, suc, ◌+◌, ◌*◌, ◌/◌, ◌%◌, ◌≤◌, ◌<◌, ◌≡◌, refl, min, arith}

digit_sum : (x y : ℕ) → x < 2 → y < 2 → min x y * 2 + differ x y ≡ x + y
digit_sum zero y h k = omega arith
digit_sum (suc zero) zero h k = refl
digit_sum (suc zero) (suc zero) h k = refl
digit_sum (suc zero) (suc (suc y)) h k = absurd (omega arith)
digit_sum (suc (suc x)) y h k = absurd (omega arith)

digits_sum :
    (n a b : ℕ) → a ≤ n → digits (λ k. zero) min n a b * 2 + digits (λ k. k) differ n a b ≡ a + b
digits_sum zero zero b h = omega arith
digits_sum zero (suc a) b h = absurd (omega arith)
digits_sum (suc n) zero b h = omega arith
digits_sum (suc n) (suc a) b h = omega (
  arith,
  digits_sum n (suc a / 2) (b / 2) (omega arith),
  digit_sum (suc a % 2) (b % 2) (omega arith) (omega arith),
)

-- Carries count twice.
pub bit_and-bit_xor : (a b : ℕ) → bit_and a b * 2 + bit_xor a b ≡ a + b
bit_and-bit_xor a b =
    omega (arith, digits_sum a a b (omega arith), bit_and-bitwise a b, bit_xor-bitwise a b)
