-- ===== src/Math/Range/Bounds.antt =====
-- What a range that was built satisfies.
use perpcity_rust_sdk.Base.{
  ℕ, ◌-◌, ◌*◌, ◌/◌, ◌≤◌, ◌<◌, All, ◌≡◌, inl, inr, refl, ◌∙◌, List, [], ◌∷◌, false, ltb, arith,
  Bool-cases,
}
use perpcity_rust_sdk.Base.Int.{ℤ, pos, negsuc, ◌<ℤ◌, ◌≤ℤ◌, abs, ◌+ℤ◌}
use perpcity_rust_sdk.Base.Division.{div_bounds}
use perpcity_rust_sdk.Base.Word.{u128_mod}
use perpcity_rust_sdk.Base.Result.{ok}
use perpcity_rust_sdk.Math.FixedPoint.{u256_mod}
use perpcity_rust_sdk.Math.Tick.{
  get_sqrt_ratio_at_tick, align_tick_down, align_tick_up, magics, finish_ratio, uniswap_max_tick,
  bit_set,
}
use perpcity_rust_sdk.Math.Tick.Reference.{reference_bits, get_sqrt_ratio_at_tick-eq-reference}
use perpcity_rust_sdk.Math.Tick.Align.{align_tick_down_lem, align_tick_up_lem}
use perpcity_rust_sdk.Math.Range.{
  TickRange, lowest_tick, highest_tick, tick_spacing, new_range, between_ticks, sqrt_bounds,
}

pub record IsValid (r : TickRange) : Type 0 where
  pub ordered : r.lower <ℤ r.upper
  pub above : lowest_tick ≤ℤ r.lower
  pub under : r.upper ≤ℤ highest_tick

-- A range is built exactly from two ticks in order inside the domain, and then it is theirs.
pub new_range-IsValid :
    (lower upper : ℤ)
    → ((r : TickRange)
        → new_range lower upper ≡ ok r
        → IsValid r × (r.lower ≡ lower) × (r.upper ≡ upper))
      × (IsValid (record { lower = lower; upper = upper })
          → new_range lower upper ≡ ok (record { lower = lower; upper = upper }))
unfolding new_range
new_range-IsValid lower upper =
    (λ r e. (ground arith, ground arith, ground arith), λ v. ground arith)

-- All bits applied.
abbrev all_bits : List (ℕ × ℕ) → ℕ → ℕ
all_bits [] ratio = ratio
all_bits ((bit, magic) ∷ ms) ratio = all_bits ms (ratio * magic / u128_mod)

shift_mono : (a b m : ℕ) → a ≤ b → a * m / u128_mod ≤ b * m / u128_mod
shift_mono a b m h = let k : a * m ≤ b * m = grind arith in omega arith

shift_le : (b m : ℕ) → m < u128_mod → b * m / u128_mod ≤ b
shift_le b m h = let k : b * m ≤ b * u128_mod = grind arith in omega arith

-- The ratio lies between that with all bits applied and the one it starts from.
reference_bits_bounds :
    (abs_tick : ℕ) (ms : List (ℕ × ℕ)) (a b : ℕ)
    → All (λ (m : ℕ × ℕ). m.1 < u128_mod) ms
    → a ≤ b
    → (all_bits ms a ≤ reference_bits abs_tick ms b) × (reference_bits abs_tick ms b ≤ b)
reference_bits_bounds abs_tick [] a b s h = (h, omega arith)
reference_bits_bounds abs_tick ((bit, magic) ∷ ms) a b s h =
    elim (Bool-cases (bit_set abs_tick bit)) [
      | inl c ↦
          let (p, q) =
            reference_bits_bounds abs_tick ms (a * magic / u128_mod) (b * magic / u128_mod) s.1
              (shift_mono a b magic h) in
          let small = shift_le b magic s.0 in rw c (p, omega arith)
      | inr c ↦
          let low : a * magic / u128_mod ≤ b = omega (arith, shift_le a magic s.0) in
          rw c (reference_bits_bounds abs_tick ms (a * magic / u128_mod) b s.1 low)
    ]

inverse_bounds : (n r : ℕ) → 4294967296 ≤ r → r ≤ n → (0 < n / r) × (n / r * 4294967296 ≤ n)
inverse_bounds n r h k =
    let (p, q) = div_bounds n r (omega arith) in
    let pos : 0 < n / r = ground arith in (pos, grind arith)

finish_pos :
    (tick : ℤ) (ratio : ℕ)
    → 4294967296 ≤ ratio
    → ratio ≤ u128_mod
    → (0 < finish_ratio tick ratio) × (finish_ratio tick ratio < u256_mod)
unfolding finish_ratio
finish_pos tick ratio h k =
    let (p, q) = inverse_bounds (u256_mod - 1) ratio h (omega arith) in ground arith

ratio_least : 4294967296 ≤ all_bits magics u128_mod
ratio_least = omega arith

ltb-false : (a b : ℕ) → b ≤ a → ltb a b ≡ false
ltb-false a b h = ground arith

domain_abs : (t : ℤ) → lowest_tick ≤ℤ t → t ≤ℤ highest_tick → abs t ≤ uniswap_max_tick
domain_abs (pos n) a b = omega arith
domain_abs (negsuc n) a b = omega arith

-- Every tick of the pool's domain has a square-root price, and it is positive and a U256.
pub get_sqrt_ratio_at_tick-pos :
    (tick : ℤ)
    → abs tick ≤ uniswap_max_tick
    → (a : ℕ) × (get_sqrt_ratio_at_tick tick ≡ ok a) × (0 < a) × (a < u256_mod)
get_sqrt_ratio_at_tick-pos tick h =
    let ratio = reference_bits (abs tick) magics u128_mod in
    let (lo, hi) =
      reference_bits_bounds (abs tick) magics u128_mod u128_mod (omega arith) (omega arith) in
    let least = ratio_least in
    let (p, q) = finish_pos tick ratio (omega arith) hi in
    (
      finish_ratio tick ratio,
      get_sqrt_ratio_at_tick-eq-reference tick ∙ rw (ltb-false uniswap_max_tick (abs tick) h) refl,
      p,
      q,
    )

-- The expectation in `sqrt_bounds` is met: a valid range has its two square-root prices, and both are
-- positive and a U256.
pub sqrt_bounds_total :
    (r : TickRange)
    → IsValid r
    → (a b : ℕ) × (sqrt_bounds r ≡ ok (a, b)) × (0 < a) × (0 < b) × (a < u256_mod) × (b < u256_mod)
unfolding sqrt_bounds
sqrt_bounds_total r v =
    let (a, ea, pa, ua) =
      get_sqrt_ratio_at_tick-pos r.lower
        (domain_abs r.lower v.above (omega (arith, v.ordered, v.under))) in
    let (b, eb, pb, ub) =
      get_sqrt_ratio_at_tick-pos r.upper
        (domain_abs r.upper (omega (arith, v.ordered, v.above)) v.under) in
    (a, b, rw (ea, eb), pa, pb, ua, ub)

-- A range made around two ticks is valid and encloses them, each bound less than a spacing away.
pub between_ticks_encloses :
    (lower upper : ℤ) (r : TickRange)
    → between_ticks lower upper ≡ ok r
    → (r.lower ≤ℤ lower)
      × (upper ≤ℤ r.upper)
      × (lower <ℤ r.lower +ℤ pos tick_spacing)
      × (r.upper <ℤ upper +ℤ pos tick_spacing)
      × IsValid r
unfolding between_ticks
between_ticks_encloses lower upper r e =
    let (m, a, b) = align_tick_down_lem lower tick_spacing (omega arith) in
    let (n, c, d) = align_tick_up_lem upper tick_spacing (omega arith) in
    let (v, p, q) =
      (new_range-IsValid (align_tick_down lower tick_spacing) (align_tick_up upper tick_spacing)).0
        r e in
    (rw p a, rw q c, rw p b, rw q d, v)
