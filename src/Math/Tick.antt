-- ===== src/Math/Tick.antt =====
-- Ticks and square-root prices: src/math/tick.rs. An i32 tick is an integer; a square-root price is
-- its Q64.96 number.
pub mod Reference
pub mod Search
pub mod Align
use perpcity_rust_sdk.Base.{
  ℕ, zero, suc, ◌+◌, ◌-◌, ◌*◌, ◌/◌, ◌%◌, ◌≡◌, List, [], ◌∷◌, Bool, true, false, ltb, leb, ◌==◌,
  ◌||◌, if◌then◌else◌,
}
use perpcity_rust_sdk.Base.Int.{ℤ, pos, negsuc, ◌+ℤ◌, ◌-ℤ◌, abs, is_neg, ltb_ℤ, leb_ℤ}
use perpcity_rust_sdk.Base.Result.{Result, ok, err, invalid_tick_range, invalid_price, ◌>>=◌}
use perpcity_rust_sdk.Base.Word.{u128_mod, u64_mod}
use perpcity_rust_sdk.Math.FixedPoint.{u256_mod}

abbrev pub uniswap_max_tick : ℕ
uniswap_max_tick = 887272

abbrev pub min_tick : ℤ
min_tick = negsuc 887271

abbrev pub max_tick : ℤ
max_tick = pos 887272

abbrev pub carry : Bool → ℕ
carry true = 1
carry false = 0

-- `overflowing_add` of two u128: the wrapped sum and the carry.
abbrev pub overflowing_add : ℕ → ℕ → ℕ × ℕ
overflowing_add a b = ((a + b) % u128_mod, carry (leb u128_mod (a + b)))

unfoldable pub mul_shift_128 : ℕ → ℕ → ℕ
mul_shift_128 a b =
    let a_hi = a / u64_mod in
    let a_lo = a % u64_mod in
    let b_hi = b / u64_mod in
    let b_lo = b % u64_mod in
    let ll = a_lo * b_lo in
    let lh = a_lo * b_hi in
    let hl = a_hi * b_lo in
    let hh = a_hi * b_hi in
    let (cross, carry1) = overflowing_add lh hl in
    let (mid, carry2) = overflowing_add cross (ll / u64_mod) in
    hh + mid / u64_mod + (carry1 + carry2) * u64_mod

-- The ratio, and the flag that stands for 2^128 while no bit has been applied.
pub record Ratio : Type 0 where
  pub ratio : ℕ
  pub is_unit : Bool

-- `abs_tick & bit != 0`, of a power of two.
abbrev pub bit_set : ℕ → ℕ → Bool
bit_set abs_tick bit = abs_tick / bit % 2 == 1

-- `apply_bit_u128!`; on the unit it is the initial `if` too.
unfoldable pub apply_bit : ℕ → ℕ → ℕ → Ratio → Ratio
unfolding mul_shift_128
apply_bit abs_tick bit magic r =
    if bit_set abs_tick bit
    then (if r.is_unit
        then record { ratio = magic; is_unit = false }
        else record r { ratio = mul_shift_128 r.ratio magic })
    else r

abbrev pub magics : List (ℕ × ℕ)
magics =
    (0x1, 0xfffcb933bd6fad37aa2d162d1a594001)
    ∷ (0x2, 0xfff97272373d413259a46990580e213a)
    ∷ (0x4, 0xfff2e50f5f656932ef12357cf3c7fdcc)
    ∷ (0x8, 0xffe5caca7e10e4e61c3624eaa0941cd0)
    ∷ (0x10, 0xffcb9843d60f6159c9db58835c926644)
    ∷ (0x20, 0xff973b41fa98c081472e6896dfb254c0)
    ∷ (0x40, 0xff2ea16466c96a3843ec78b326b52861)
    ∷ (0x80, 0xfe5dee046a99a2a811c461f1969c3053)
    ∷ (0x100, 0xfcbe86c7900a88aedcffc83b479aa3a4)
    ∷ (0x200, 0xf987a7253ac413176f2b074cf7815e54)
    ∷ (0x400, 0xf3392b0822b70005940c7a398e4b70f3)
    ∷ (0x800, 0xe7159475a2c29b7443b29c7fa6e889d9)
    ∷ (0x1000, 0xd097f3bdfd2022b8845ad8f792aa5825)
    ∷ (0x2000, 0xa9f746462d870fdf8a65dc1f90e061e5)
    ∷ (0x4000, 0x70d869a156d2a1b890bb3df62baf32f7)
    ∷ (0x8000, 0x31be135f97d08fd981231505542fcfa6)
    ∷ (0x10000, 0x9aa508b5b7a84e1c677de54f3e99bc9)
    ∷ (0x20000, 0x5d6af8dedb81196699c329225ee604)
    ∷ (0x40000, 0x2216e584f5fa1ea926041bedfe98)
    ∷ (0x80000, 0x48a170391f7dc42444e8fa2)
    ∷ []

unfoldable pub apply_bits : ℕ → List (ℕ × ℕ) → Ratio → Ratio
unfolding apply_bit
apply_bits abs_tick [] r = r
apply_bits abs_tick ((bit, magic) ∷ ms) r = apply_bits abs_tick ms (apply_bit abs_tick bit magic r)

abbrev pub unit_ratio : Ratio
unit_ratio = record { ratio = 0; is_unit = true }

-- The last steps: the inverse for a positive tick, and Q128.128 to Q64.96, rounded up.
unfoldable pub finish_ratio : ℤ → ℕ → ℕ
finish_ratio tick result =
    let r = if ltb_ℤ (pos 0) tick then (u256_mod - 1) / result else result in
    (r + 4294967295) % u256_mod / 4294967296

unfoldable pub get_sqrt_ratio_at_tick : ℤ → Result ℕ
unfolding apply_bits finish_ratio
get_sqrt_ratio_at_tick tick =
    if ltb uniswap_max_tick (abs tick)
    then err (invalid_tick_range tick tick)
    else let r = apply_bits (abs tick) magics unit_ratio in
      ok (finish_ratio tick (if r.is_unit then u128_mod else r.ratio))

-- `hi - lo` halved, rounded toward zero.
abbrev pub half : ℤ → ℤ
half (pos n) = pos (n / 2)
half (negsuc n) = pos 0 -ℤ pos (suc n / 2)

-- The loop of `get_tick_at_sqrt_ratio`, over any ratio function. Fuel: a range of width w takes less
-- than the number of bits of w.
unfoldable pub search : (ℤ → Result ℕ) → ℕ → ℕ → ℤ → ℤ → Result ℤ
search ratio sqrt zero lo hi = ok lo
search ratio sqrt (suc fuel) lo hi = elim (ltb_ℤ (lo +ℤ pos 1) hi) [
  | false ↦ ok lo
  | true ↦
      let mid = lo +ℤ half (hi -ℤ lo) in
      ratio mid >>= λ at. elim (leb at sqrt) [
        | true ↦ search ratio sqrt fuel mid hi
        | false ↦ search ratio sqrt fuel lo mid
      ]
]

unfoldable pub get_tick_at_sqrt_ratio : ℕ → Result ℤ
get_tick_at_sqrt_ratio sqrt_price = get_sqrt_ratio_at_tick min_tick >>= λ lowest.
    get_sqrt_ratio_at_tick max_tick >>= λ highest.
    if ltb sqrt_price lowest || leb highest sqrt_price
    then err invalid_price
    else search get_sqrt_ratio_at_tick sqrt_price 21 min_tick max_tick

-- `rem_euclid` by a positive number.
abbrev pub rem_euclid : ℤ → ℕ → ℕ
rem_euclid (pos n) m = n % m
rem_euclid (negsuc n) m = m - 1 - n % m

unfoldable pub align_tick_down : ℤ → ℕ → ℤ
align_tick_down tick spacing = tick -ℤ pos (rem_euclid tick spacing)

unfoldable pub align_tick_up : ℤ → ℕ → ℤ
align_tick_up tick spacing =
    let remainder = rem_euclid tick spacing in
    if remainder == 0 then tick else tick +ℤ pos (spacing - remainder)
