-- ===== src/Base/Word.antt =====
-- Machine words as native numbers: the moduli, and the saturating and wrapping operations of Rust's
-- unsigned integers.
use perpcity_rust_sdk.Base.{ℕ, ◌+◌, ◌-◌, ◌*◌, ◌%◌, ◌<◌, min, ◌≡◌, arith}

-- 2^32, 2^64, 2^96, 2^128 and 2^256.
abbrev pub u32_mod : ℕ
u32_mod = 4294967296

abbrev pub u64_mod : ℕ
u64_mod = 18446744073709551616

abbrev pub u128_mod : ℕ
u128_mod = 340282366920938463463374607431768211456

abbrev pub u64_max : ℕ
u64_max = 18446744073709551615

-- `u64::saturating_add`, `u64::saturating_mul`.
abbrev pub sat_add64 : ℕ → ℕ → ℕ
sat_add64 a b = min (a + b) u64_max

abbrev pub sat_mul64 : ℕ → ℕ → ℕ
sat_mul64 a b = min (a * b) u64_max

-- `fetch_add(1)` and `fetch_sub(1)` on a 64-bit atomic wrap.
abbrev pub inc64 : ℕ → ℕ
inc64 n = (n + 1) % u64_mod

abbrev pub dec64 : ℕ → ℕ
dec64 n = (n + (u64_mod - 1)) % u64_mod

pub inc64-dec64 : (n : ℕ) → n < u64_mod → inc64 (dec64 n) ≡ n
inc64-dec64 n h = omega arith

pub dec64-inc64 : (n : ℕ) → n < u64_mod → dec64 (inc64 n) ≡ n
dec64-inc64 n h = omega arith
