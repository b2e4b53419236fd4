-- ===== src/Math/FixedPoint/Exp.antt =====
-- `exp_wad` of src/units/fixed_point.rs, on the wrapping operations of an I256.
use perpcity_rust_sdk.Base.{ℕ, ◌+◌, ◌-◌, ◌*◌, ◌/◌, ◌%◌, ◌^◌, ltb, if◌then◌else◌}
use perpcity_rust_sdk.Base.Int.{
  ℤ, pos, negsuc, ◌+ℤ◌, ◌-ℤ◌, neg, abs, is_neg, pos_part, neg_part, sub_ℕ, leb_ℤ,
}
use perpcity_rust_sdk.Base.Result.{Result, ok, err, overflow}
use perpcity_rust_sdk.Math.FixedPoint.{u256_mod, i256_half}

unfoldable pub wrap_i256 : ℤ → ℤ
wrap_i256 z =
    let r = (pos_part z + (u256_mod - neg_part z % u256_mod)) % u256_mod in
    if ltb r i256_half then pos r else negsuc (u256_mod - r - 1)

-- `wrapping_add`, `wrapping_sub`, `wrapping_mul`, `wrapping_shl`, `wrapping_div` and `asr(96)`.
unfoldable pub add : ℤ → ℤ → ℤ
unfolding wrap_i256
add a b = wrap_i256 (a +ℤ b)

unfoldable pub sub : ℤ → ℤ → ℤ
unfolding wrap_i256
sub a b = wrap_i256 (a -ℤ b)

unfoldable pub mul : ℤ → ℤ → ℤ
unfolding wrap_i256
mul a b = wrap_i256 (
    sub_ℕ (pos_part a * pos_part b + neg_part a * neg_part b)
      (pos_part a * neg_part b + neg_part a * pos_part b))

unfoldable pub shl : ℕ → ℤ → ℤ
unfolding mul
shl bits a = mul a (pos (2 ^ bits))

unfoldable pub div : ℤ → ℤ → ℤ
unfolding wrap_i256
div (pos a) b = wrap_i256 (if is_neg b then neg (pos (a / abs b)) else pos (a / abs b))
div (negsuc a) b =
    wrap_i256 (if is_neg b then pos ((a + 1) / abs b) else neg (pos ((a + 1) / abs b)))

unfoldable pub asr_96 : ℤ → ℤ
asr_96 (pos n) = pos (n / 2 ^ 96)
asr_96 (negsuc n) = negsuc (n / 2 ^ 96)

-- A round of the evaluation of a polynomial: `y * x >> 96`.
unfoldable pub times : ℤ → ℤ → ℤ
unfolding asr_96 mul
times y x = asr_96 (mul y x)

abbrev pub log_2 : ℤ
log_2 = pos 54916777467707473351141471128

unfoldable pub exponent_of : ℤ → ℤ
unfolding asr_96 add div shl
exponent_of x = asr_96 (add (div (shl 96 x) log_2) (shl 95 (pos 1)))

unfoldable pub numerator : ℤ → ℤ
unfolding times add sub mul shl
numerator x =
    let y = add x (pos 1346386616545796478920950773328) in
    let y = add (times y x) (pos 57155421227552351082224309758442) in
    let p = sub (add y x) (pos 94201549194550492254356042504812) in
    let p = add (times p y) (pos 28719021644029726153956944680412240) in
    add (mul p x) (shl 96 (pos 4385272521454847904659076985693276))

unfoldable pub denominator : ℤ → ℤ
unfolding times add sub
denominator x =
    let q = sub x (pos 2855989394907223263936484059900) in
    let q = add (times q x) (pos 50020603652535783019961831881945) in
    let q = sub (times q x) (pos 533845033583426703283633433725380) in
    let q = add (times q x) (pos 3604857256930695427073651918091429) in
    let q = sub (times q x) (pos 14423608567350463180887372962807573) in
    add (times q x) (pos 26449188498355588339934803723976023)

-- The scaling by a power of two; an error where the approximation is negative or the shift is. The
-- exponent of an argument between the guards is a small number, so that its conversion to an i128
-- does not fail.
unfoldable pub scaled : ℤ → ℤ → Result ℕ
scaled r k =
    if is_neg r
    then err overflow
    else if is_neg (pos 195 -ℤ k)
    then err overflow
    else ok (
        abs r
        * 3822833074963236453042738258902158003155416615667
        % u256_mod
        / 2 ^ pos_part (pos 195 -ℤ k))

unfoldable pub exp_wad : ℤ → Result ℕ
unfolding exponent_of numerator denominator scaled div shl sub mul
exp_wad x =
    let y = div (shl 78 x) (pos 3814697265625) in
    let k = exponent_of y in
    let z = sub y (mul k log_2) in
    if leb_ℤ x (negsuc 41446531673892822312)
    then ok 0
    else if leb_ℤ (pos 135305999368893231589) x
    then err overflow
    else scaled (div (numerator z) (denominator z)) k
