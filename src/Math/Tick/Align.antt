-- ===== src/Math/Tick/Align.antt =====
-- Aligning a tick to the spacing.
use perpcity_rust_sdk.Base.{ℕ, ◌+◌, ◌-◌, ◌*◌, ◌/◌, ◌%◌, ◌<◌, ◌≡◌, ◌==◌, arith, inl, inr, Bool-cases}
use native.Mathlib.Nat.{div-add-mod, mod-lt}
use perpcity_rust_sdk.Base.Int.{ℤ, pos, negsuc, ◌+ℤ◌, ◌-ℤ◌, ◌≤ℤ◌, ◌<ℤ◌, abs}
use perpcity_rust_sdk.Math.Tick.{align_tick_down, align_tick_up}

-- The absolute value is a multiple of a number.
abbrev pub IsMultiple : ℕ → ℤ → Type 0
IsMultiple m t = (k : ℕ) × (abs t ≡ k * m)

euclid : (n m : ℕ) → 0 < m → (n ≡ m * (n / m) + n % m) × (n % m < m)
euclid n m h = (omega (arith, div-add-mod n m), mod-lt n h)

-- Aligning downwards gives a multiple of the spacing at most the tick and less than a spacing below.
pub align_tick_down_lem :
    (t : ℤ) (m : ℕ)
    → 0 < m
    → IsMultiple m (align_tick_down t m)
      × (align_tick_down t m ≤ℤ t)
      × (t <ℤ align_tick_down t m +ℤ pos m)
unfolding align_tick_down ◌-ℤ◌ ◌+ℤ◌
align_tick_down_lem (pos n) m h =
    let (e, l) = euclid n m h in ((n / m, ground arith), ground arith, ground arith)
align_tick_down_lem (negsuc n) m h =
    let (e, l) = euclid n m h in ((n / m + 1, ground arith), ground arith, ground arith)

-- Aligning upwards gives a multiple of the spacing at least the tick and less than a spacing above.
pub align_tick_up_lem :
    (t : ℤ) (m : ℕ)
    → 0 < m
    → IsMultiple m (align_tick_up t m)
      × (t ≤ℤ align_tick_up t m)
      × (align_tick_up t m <ℤ t +ℤ pos m)
unfolding align_tick_up ◌-ℤ◌ ◌+ℤ◌
align_tick_up_lem (pos n) m h =
    let (e, l) = euclid n m h in
    elim (Bool-cases (n % m == 0)) [
      | inl z ↦ rw (z, align_tick_up) ((n / m, ground arith), omega arith, ground arith)
      | inr z ↦ rw (z, align_tick_up) ((n / m + 1, ground arith), ground arith, ground arith)
    ]
align_tick_up_lem (negsuc n) m h =
    let (e, l) = euclid n m h in
    elim (Bool-cases (m - 1 - n % m == 0)) [
      | inl z ↦ rw (z, align_tick_up) ((n / m + 1, ground arith), omega arith, ground arith)
      | inr z ↦ rw (z, align_tick_up) ((n / m, ground arith), ground arith, ground arith)
    ]
