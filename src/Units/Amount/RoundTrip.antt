-- ===== src/Units/Amount/RoundTrip.antt =====
-- An amount that is printed is read back to the atom, or to the atoms that its precision kept.
use perpcity_rust_sdk.Base.{
  ℕ, suc, ◌+◌, ◌-◌, ◌*◌, ◌/◌, ◌%◌, ◌≤◌, ◌<◌, ◌≡◌, refl, ap, ◌∙◌, Bool, true, false, ltb, leb,
  Option, none, arith,
}
use perpcity_rust_sdk.Base.Int.{ℤ, pos, negsuc, neg, pos_part, neg_part}
use perpcity_rust_sdk.Base.Word.{u128_mod}
use perpcity_rust_sdk.Base.Result.{ok}
use perpcity_rust_sdk.Units.Amount.{
  atoms_per_unit, i128_half, to_string, fraction_text, fmt_atoms, fmt_count, fmt_delta, parse_atoms,
  parse_count, parse_delta, signed_i128,
}
use perpcity_rust_sdk.Units.Amount.Printed.{parse_atoms-join_fraction}
use perpcity_rust_sdk.Units.Amount.Fraction.{
  kept, kept_le, to_string-IsDecimal, fraction_text-IsFraction,
}

-- A printed amount of 128 bits is read back: to the atom where no precision was asked, and else to
-- the digits that the precision kept, rounded down.
pub parse_atoms-fmt_atoms :
    (precision : Option ℕ) (negative : Bool) (magnitude : ℕ)
    → magnitude < u128_mod
    → parse_atoms (fmt_atoms precision negative magnitude)
      ≡ ok (
        negative,
        magnitude / atoms_per_unit * atoms_per_unit + kept precision (magnitude % atoms_per_unit),
      )
unfolding fmt_atoms
parse_atoms-fmt_atoms precision negative magnitude h =
    let less = kept_le precision (magnitude % atoms_per_unit) in
    parse_atoms-join_fraction negative (to_string (magnitude / atoms_per_unit))
      (fraction_text precision (magnitude % atoms_per_unit)) (magnitude / atoms_per_unit)
      (kept precision (magnitude % atoms_per_unit))
      (to_string-IsDecimal (magnitude / atoms_per_unit) (omega arith))
      (fraction_text-IsFraction precision (magnitude % atoms_per_unit) (omega arith))
      (omega (arith, less))

whole_atoms : (n : ℕ) → n / atoms_per_unit * atoms_per_unit + n % atoms_per_unit ≡ n
whole_atoms n = omega arith

whole_amount :
    (negative : Bool) (n : ℕ)
    → n < u128_mod
    → parse_atoms (fmt_atoms none negative n) ≡ ok (negative, n)
whole_amount negative n h =
    parse_atoms-fmt_atoms none negative n h ∙ ap (λ k. ok (negative, k)) (whole_atoms n)

-- A count that is printed is read back.
pub parse_count-fmt_count :
    (atoms : ℕ) → atoms < u128_mod → parse_count (fmt_count atoms) ≡ ok atoms
unfolding parse_count fmt_count
parse_count-fmt_count atoms h = rw (whole_amount false atoms h) refl

negated : (n : ℕ) → neg (pos (suc n)) ≡ negsuc n
unfolding neg
negated n =
    let a : leb (suc n) 0 ≡ false = ground arith in
    let b : suc n - 0 - 1 ≡ n = omega arith in rw a (ap negsuc b)

-- A signed count of 128 bits that is printed is read back, the least one included.
pub parse_delta-fmt_delta :
    (atoms : ℤ)
    → pos_part atoms < i128_half
    → neg_part atoms ≤ i128_half
    → parse_delta (fmt_delta atoms) ≡ ok atoms
unfolding parse_delta fmt_delta signed_i128
parse_delta-fmt_delta (pos n) h k =
    let fits : ltb (n + 0) i128_half ≡ true = ground arith in
    rw (whole_amount false (n + 0) (omega arith), fits) (ap (λ m. ok (pos m)) (omega arith))
parse_delta-fmt_delta (negsuc n) h k =
    let fits : leb (0 + suc n) i128_half ≡ true = ground arith in
    let same : 0 + suc n ≡ suc n = omega arith in
    rw (whole_amount true (0 + suc n) (omega arith), fits)
      (ap (λ m. ok (neg (pos m))) same ∙ ap (λ z. ok z) (negated n))
