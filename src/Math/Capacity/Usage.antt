-- ===== src/Math/Capacity/Usage.antt =====
-- How open interest stands to capacity.
use perpcity_rust_sdk.Base.{
  ℕ, zero, suc, ◌+◌, ◌*◌, ◌/◌, ◌≤◌, ◌<◌, ◌≡◌, ◌↔◌, ◌⊎◌, ap, refl, some, none, arith, inl, inr,
}
use perpcity_rust_sdk.Base.Division.{div_bounds}
use native.Mathlib.Nat.{div-lt_iff_lt-mul}
use perpcity_rust_sdk.Base.Word.{u128_mod}
use perpcity_rust_sdk.Base.Result.{ok, err, overflow}
use perpcity_rust_sdk.Math.Side.{Side, on}
use perpcity_rust_sdk.Math.FixedPoint.{toward_zero, mul_div, round_div, u512_to_u256, u256_mod}
use perpcity_rust_sdk.Math.Capacity.{MarketCapacity, headroom, utilization_e6}

ratio_bounds :
    (x k : ℕ)
    → 0 < k
    → x ≤ k
    → x < u128_mod
    → (x * 1000000 / k < u256_mod)
      × (x * 1000000 / k ≤ 1000000)
      × ((x * 1000000 / k < 1000000) ↔ (x < k))
ratio_bounds x k h l s =
    let (a, b) = div_bounds (x * 1000000) k h in
    let d = div-lt_iff_lt-mul {k = k} {x = x * 1000000} {y = 1000000} h in
    let top : x * 1000000 / k ≤ 1000000 =
      omega
        (arith, (div-lt_iff_lt-mul {k = k} {x = x * 1000000} {y = 1000001} h).1 (omega arith)) in
    (omega arith, top, (λ q. omega (arith, d.0 q), λ q. d.1 (omega arith)))

ratio_value :
    (x k : ℕ)
    → 0 < k
    → x * 1000000 / k < u256_mod
    → mul_div x 1000000 k toward_zero ≡ ok (x * 1000000 / k)
unfolding mul_div round_div u512_to_u256
ratio_value x k h s = ground arith

ratio_none : (x : ℕ) → mul_div x 1000000 0 toward_zero ≡ err overflow
unfolding mul_div
ratio_none x = refl

utilization_value :
    (side : Side) (m : MarketCapacity)
    → 0 < on side m.capacity
    → on side m.open_interest ≤ on side m.capacity
    → on side m.open_interest < u128_mod
    → utilization_e6 side m ≡ some (on side m.open_interest * 1000000 / on side m.capacity)
unfolding utilization_e6
utilization_value side m h l s =
    let (a, b, c) = ratio_bounds (on side m.open_interest) (on side m.capacity) h l s in
    rw (ratio_value (on side m.open_interest) (on side m.capacity) h a, utilization_e6)
      (ap some (omega arith))

utilization_none :
    (side : Side) (m : MarketCapacity) → on side m.capacity ≡ 0 → utilization_e6 side m ≡ none
unfolding utilization_e6
utilization_none side m h = rw (h, ratio_none (on side m.open_interest), utilization_e6) refl

-- Where a side's open interest is within its capacity: it has no utilization exactly if it has no
-- capacity; it can grow by a size within the capacity exactly if the size is at most the headroom;
-- and the utilization is at most a million parts, and below that exactly where there is headroom.
pub usage_lem :
    (side : Side) (m : MarketCapacity) (size : ℕ)
    → on side m.open_interest < u128_mod
    → on side m.open_interest ≤ on side m.capacity
    → ((utilization_e6 side m ≡ none) ↔ (on side m.capacity ≡ 0))
      × ((on side m.open_interest + size ≤ on side m.capacity) ↔ (size ≤ headroom side m))
      × ((u : ℕ)
          → utilization_e6 side m ≡ some u
          → (u ≤ 1000000) × ((u < 1000000) ↔ (0 < headroom side m)))
unfolding headroom
usage_lem side m size s l = elim (zero_or_pos (on side m.capacity)) [
  | inl z ↦
      let n = utilization_none side m z in
      ((λ _. z, λ _. n), (λ k. omega arith, λ k. omega arith), λ u e. absurd (cc))
  | inr h ↦
      let v = utilization_value side m h l s in
      let (a, b, c) = ratio_bounds (on side m.open_interest) (on side m.capacity) h l s in
      (
        (λ e. absurd (cc), λ e. absurd (omega arith)),
        (λ k. omega arith, λ k. omega arith),
        λ u e.
            let q : u ≡ on side m.open_interest * 1000000 / on side m.capacity = cc in
            (
              omega arith,
              (λ k. omega (arith, c.0 (omega arith)), λ k. omega (arith, c.1 (omega arith))),
            ),
      )
]
  where
    zero_or_pos : (n : ℕ) → (n ≡ 0) ⊎ (0 < n)
    zero_or_pos zero = inl refl
    zero_or_pos (suc n) = inr (omega arith)
