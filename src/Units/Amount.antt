-- ===== src/Units/Amount.antt =====
-- Amounts as text: src/units/amount.rs. A text is its list of bytes, and an amount a sign and a
-- magnitude in atoms. No width or fill is asked of the formatter.
pub mod Decimal
pub mod Printed
pub mod Fraction
pub mod RoundTrip
use perpcity_rust_sdk.Base.{
  ℕ, zero, suc, ◌+◌, ◌-◌, ◌*◌, ◌/◌, ◌%◌, min, Bool, true, false, not, ltb, leb, ◌==◌, ◌&&◌,
  if◌then◌else◌, List, [], ◌∷◌, ◌++◌, Option, some, none, length, take, replicate,
}
use perpcity_rust_sdk.Base.Int.{ℤ, pos, negsuc, neg, abs, is_neg}
use perpcity_rust_sdk.Base.Word.{u128_mod}
use perpcity_rust_sdk.Base.Result.{Result, ok, err, invalid_amount, ◌>>=◌}

abbrev pub atoms_per_unit : ℕ
atoms_per_unit = 1000000

abbrev pub places : ℕ
places = 6

-- 2^127
abbrev pub i128_half : ℕ
i128_half = 170141183460469231731687303715884105728

abbrev pub Text : Type 0
Text = List ℕ

-- '-', '.' and '0'
abbrev pub minus : ℕ
minus = 45

abbrev pub dot : ℕ
dot = 46

abbrev pub zero_digit : ℕ
zero_digit = 48

-- `u128::to_string`; a u128 has at most 39 digits, and the fuel is a digit's worth each.
unfoldable pub decimal : ℕ → ℕ → Text
decimal zero n = []
decimal (suc fuel) n =
    let before = decimal fuel (n / 10) in
    if ltb n 10 then (zero_digit + n) ∷ [] else before ++ ((zero_digit + n % 10) ∷ [])

unfoldable pub to_string : ℕ → Text
unfolding decimal
to_string n = decimal 39 n

-- `{:0PLACES$}`
unfoldable pub pad_left : Text → Text
pad_left text = replicate (places - length text) zero_digit ++ text

abbrev pub is_empty : Text → Bool
is_empty [] = true
is_empty (b ∷ bs) = false

-- `trim_end_matches('0')`
unfoldable pub trim_zeros : Text → Text
trim_zeros [] = []
trim_zeros (b ∷ bs) =
    let rest = trim_zeros bs in if (b == zero_digit) && is_empty rest then [] else b ∷ rest

unfoldable pub fraction_text : Option ℕ → ℕ → Text
unfolding pad_left trim_zeros to_string
fraction_text (some precision) rest = take (min precision places) (pad_left (to_string rest))
fraction_text none rest = trim_zeros (pad_left (to_string rest))

unfoldable pub join_fraction : Text → Text → Text
join_fraction whole fraction = if is_empty fraction then whole else whole ++ (dot ∷ fraction)

unfoldable pub fmt_atoms : Option ℕ → Bool → ℕ → Text
unfolding fraction_text join_fraction to_string
fmt_atoms precision negative magnitude =
    let text =
      join_fraction (to_string (magnitude / atoms_per_unit))
        (fraction_text precision (magnitude % atoms_per_unit)) in
    if negative then minus ∷ text else text

-- `Display` of a count and of a signed count.
unfoldable pub fmt_count : ℕ → Text
unfolding fmt_atoms
fmt_count atoms = fmt_atoms none false atoms

unfoldable pub fmt_delta : ℤ → Text
unfolding fmt_atoms
fmt_delta atoms = fmt_atoms none (is_neg atoms) (abs atoms)

abbrev pub is_ascii_digit : ℕ → Bool
is_ascii_digit b = leb 48 b && leb b 57

abbrev pub all_digits : Text → Bool
all_digits [] = true
all_digits (b ∷ bs) = is_ascii_digit b && all_digits bs

-- The closure `digits`.
abbrev pub digits : Text → Bool
digits part = not (is_empty part) && all_digits part

-- `strip_prefix('-')`
unfoldable pub strip_minus : Text → Bool × Text
strip_minus [] = (false, [])
strip_minus (b ∷ bs) = if b == minus then (true, bs) else (false, b ∷ bs)

-- `split_once('.')`
unfoldable pub split_dot : Text → Text × Option Text
split_dot [] = ([], none)
split_dot (b ∷ bs) =
    let rest = split_dot bs in if b == dot then ([], some bs) else (b ∷ rest.0, rest.1)

-- `parse::<u128>` of digits, checked at each of them.
unfoldable pub parse_u128 : ℕ → Text → Option ℕ
parse_u128 so_far [] = some so_far
parse_u128 so_far (b ∷ bs) =
    let next = so_far * 10 + (b - zero_digit) in
    let rest = parse_u128 next bs in if ltb next u128_mod then rest else none

-- `{fraction:0<PLACES$}`
unfoldable pub pad_right : Text → Text
pad_right text = text ++ replicate (places - length text) zero_digit

abbrev pub or_refuse : Option ℕ → Result ℕ
or_refuse none = err invalid_amount
or_refuse (some n) = ok n

unfoldable pub parse_fraction : Option Text → Result ℕ
unfolding pad_right parse_u128
parse_fraction none = ok 0
parse_fraction (some fraction) =
    if not (digits fraction)
    then err invalid_amount
    else if ltb places (length fraction)
    then err invalid_amount
    else or_refuse (parse_u128 0 (pad_right fraction))

-- `checked_mul`, `checked_add`
abbrev pub checked_u128 : ℕ → Option ℕ
checked_u128 n = if ltb n u128_mod then some n else none

abbrev pub add_fraction : Option ℕ → ℕ → Option ℕ
add_fraction none fraction = none
add_fraction (some atoms) fraction = checked_u128 (atoms + fraction)

unfoldable pub magnitude_of : Option ℕ → ℕ → Option ℕ
magnitude_of none fraction = none
magnitude_of (some whole) fraction = add_fraction (checked_u128 (whole * atoms_per_unit)) fraction

unfoldable pub parse_atoms : Text → Result (Bool × ℕ)
unfolding strip_minus split_dot parse_fraction parse_u128 magnitude_of
parse_atoms text =
    let stripped = strip_minus text in
    let parts = split_dot stripped.1 in
    if not (digits parts.0)
    then err invalid_amount
    else (parse_fraction parts.1 >>= λ fraction.
        or_refuse (magnitude_of (parse_u128 0 parts.0) fraction) >>= λ magnitude.
        ok (stripped.0, magnitude))

abbrev pub unsigned_only : Bool × ℕ → Result ℕ
unsigned_only (false, atoms) = ok atoms
unsigned_only (true, atoms) = err invalid_amount

unfoldable pub parse_count : Text → Result ℕ
unfolding parse_atoms
parse_count text = parse_atoms text >>= unsigned_only

-- `checked_sub_unsigned` from zero, and `i128::try_from`.
unfoldable pub signed_i128 : Bool × ℕ → Result ℤ
signed_i128 (true, magnitude) =
    if leb magnitude i128_half then ok (neg (pos magnitude)) else err invalid_amount
signed_i128 (false, magnitude) =
    if ltb magnitude i128_half then ok (pos magnitude) else err invalid_amount

unfoldable pub parse_delta : Text → Result ℤ
unfolding parse_atoms signed_i128
parse_delta text = parse_atoms text >>= signed_i128
