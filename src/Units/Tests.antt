-- ===== src/Units/Tests.antt =====
-- Splits of concrete amounts.
use perpcity_rust_sdk.Base.{
  true, ℕ, suc, ◌+◌, ◌*◌, ◌≤◌, ◌<◌, ◌≡◌, ◌≢◌, ◌⊎◌, refl, List, [], ◌∷◌, length, some, none, arith,
}
use perpcity_rust_sdk.Base.Result.{ok, err, invalid_share, invalid_amount}
use perpcity_rust_sdk.Base.Int.{negsuc, neg}
use perpcity_rust_sdk.Units.Amount.{
  Text, fmt_atoms, fmt_count, fmt_delta, parse_atoms, parse_count, parse_delta,
}
use perpcity_rust_sdk.Units.Amount.RoundTrip.{
  parse_atoms-fmt_atoms, parse_count-fmt_count, parse_delta-fmt_delta,
}
use perpcity_rust_sdk.Units.Share.{
  Share, one_e6, sum, at, total_e6, split_u128, split_weighted_u128, of_u128,
}
use perpcity_rust_sdk.Units.Share.Split.{
  IsSplit, split_u128_conserves, split_weighted_u128_conserves, of_u128_nearest,
}

ten_in_three : split_u128 10 3 ≡ 4 ∷ 3 ∷ 3 ∷ []
unfolding split_u128
ten_in_three = refl

abbrev share : ℕ → Share
share n = record { e6 = n }

abbrev thirds : List Share
thirds = share 333334 ∷ share 333333 ∷ share 333333 ∷ []

hundred_in_thirds : split_weighted_u128 100 thirds ≡ ok (34 ∷ 33 ∷ 33 ∷ [])
unfolding split_weighted_u128
hundred_in_thirds = refl

two_thirds : of_u128 2 3 ≡ some (share 666667)
unfolding of_u128
two_thirds = refl

split_u128_conserves_example :
    (sum (split_u128 10 3) ≡ 10)
    × (length (split_u128 10 3) ≡ 3)
    × ((i j : ℕ)
        → i ≤ j
        → j < 3
        → (at (split_u128 10 3) j ≤ at (split_u128 10 3) i)
          × (at (split_u128 10 3) i ≤ suc (at (split_u128 10 3) j)))
split_u128_conserves_example = split_u128_conserves 10 3 (omega arith)

split_weighted_u128_conserves_example :
    ((total_e6 thirds ≢ one_e6) × (split_weighted_u128 100 thirds ≡ err invalid_share))
    ⊎ ((total_e6 thirds ≡ one_e6)
        × (pieces : List ℕ) × (split_weighted_u128 100 thirds ≡ ok pieces)
        × IsSplit 100 thirds pieces)
split_weighted_u128_conserves_example =
    split_weighted_u128_conserves 100 thirds (omega arith, (omega arith, (omega arith, tt)))
      (omega arith)

abbrev three : ℕ
three = 3

of_u128_nearest_example :
    (((three ≡ 0) ⊎ (three < 2)) × (of_u128 2 three ≡ none))
    ⊎ ((s : Share) × (of_u128 2 3 ≡ some s)
        × (s.e6 ≤ one_e6)
        × (2 * (s.e6 * 3) ≤ 2 * (2 * one_e6) + 3)
        × (2 * (2 * one_e6) ≤ 2 * (s.e6 * 3) + 3))
of_u128_nearest_example = of_u128_nearest 2 3

-- "-5.8"
abbrev owed : Text
owed = 45 ∷ 53 ∷ 46 ∷ 56 ∷ []

printed_owed : fmt_delta (negsuc 5799999) ≡ owed
unfolding fmt_delta
printed_owed = refl

read_owed : parse_delta owed ≡ ok (negsuc 5799999)
unfolding parse_delta neg
read_owed = refl

-- "1.2345678" has a seventh place.
seventh_place : parse_count (49 ∷ 46 ∷ 50 ∷ 51 ∷ 52 ∷ 53 ∷ 54 ∷ 55 ∷ 56 ∷ []) ≡ err invalid_amount
unfolding parse_count
seventh_place = refl

parse_atoms-fmt_atoms_example : parse_atoms (fmt_atoms (some 2) true 12345678) ≡ ok (true, 12340000)
unfolding parse_atoms
parse_atoms-fmt_atoms_example = parse_atoms-fmt_atoms (some 2) true 12345678 (omega arith)

parse_count-fmt_count_example : parse_count (fmt_count 12500000) ≡ ok 12500000
parse_count-fmt_count_example = parse_count-fmt_count 12500000 (omega arith)

parse_delta-fmt_delta_example : parse_delta (fmt_delta (negsuc 41)) ≡ ok (negsuc 41)
parse_delta-fmt_delta_example = parse_delta-fmt_delta (negsuc 41) (omega arith) (omega arith)
