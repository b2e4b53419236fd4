-- ===== src/Units/Share.antt =====
-- A fraction of a whole in millionths, and the splits of a count by it: src/units/share.rs. A count is
-- a u128; the pieces of one are numbers that add up to it, so no sum of them wraps.
pub mod Sums
pub mod Ranked
pub mod Split
use perpcity_rust_sdk.Base.{
  ℕ, zero, suc, ◌+◌, ◌-◌, ◌*◌, ◌/◌, ◌%◌, Bool, true, false, ltb, ◌==◌, ◌||◌, ◌&&◌, if◌then◌else◌,
  List, [], ◌∷◌, map, Option, some, none, get_elem?, take, modify, length,
}
use perpcity_rust_sdk.Base.Word.{u64_mod}
use perpcity_rust_sdk.Base.Result.{Result, ok, err, invalid_share}

abbrev pub one_e6 : ℕ
one_e6 = 1000000

pub record Share : Type 0 where
  pub e6 : ℕ

unfoldable pub from_e6 : ℕ → Result Share
from_e6 e6 = if ltb one_e6 e6 then err invalid_share else ok (record { e6 = e6 })

unfoldable pub is_zero : Share → Bool
is_zero s = s.e6 == 0

unfoldable pub is_whole : Share → Bool
is_whole s = s.e6 == one_e6

unfoldable pub complement : Share → Share
complement s = record { e6 = one_e6 - s.e6 }

unfoldable pub of_u128 : ℕ → ℕ → Option Share
of_u128 part whole =
    if (whole == 0) || ltb whole part
    then none
    else some (record { e6 = (part * one_e6 + whole / 2) / whole })

-- `(first..first + n)`
abbrev pub count_from : ℕ → ℕ → List ℕ
count_from first zero = []
count_from first (suc n) = first ∷ count_from (suc first) n

-- `u128::from(i < extra)`
abbrev pub one_below : ℕ → ℕ → ℕ
one_below i extra = if ltb i extra then 1 else 0

unfoldable pub split_u128 : ℕ → ℕ → List ℕ
split_u128 x n = map (λ i. x / n + one_below i (x % n)) (count_from 0 n)

abbrev pub sum : List ℕ → ℕ
sum [] = 0
sum (x ∷ xs) = x + sum xs

-- The indices below are the list's own.
abbrev pub at : List ℕ → ℕ → ℕ
at [] i = 0
at (x ∷ xs) zero = x
at (x ∷ xs) (suc i) = at xs i

-- `remainders[b].cmp(&remainders[a]).then(a.cmp(&b))` is `Less`.
unfoldable pub comes_first : List ℕ → ℕ → ℕ → Bool
comes_first remainders a b =
    ltb (at remainders b) (at remainders a) || ((at remainders b == at remainders a) && ltb a b)

-- `sort_by`
unfoldable pub insert_by : (ℕ → ℕ → Bool) → ℕ → List ℕ → List ℕ
insert_by less i [] = i ∷ []
insert_by less i (j ∷ js) = if less i j then i ∷ j ∷ js else j ∷ insert_by less i js

unfoldable pub sort_by : (ℕ → ℕ → Bool) → List ℕ → List ℕ
unfolding insert_by
sort_by less [] = []
sort_by less (i ∷ is) = insert_by less i (sort_by less is)

-- `for &i in … { pieces[i] += 1; }`
unfoldable pub bump : List ℕ → List ℕ → List ℕ
bump [] pieces = pieces
bump (i ∷ is) pieces = bump is (modify i suc pieces)

abbrev pub floors : ℕ → List Share → List ℕ
floors x weights = map (λ w. x * w.e6 / one_e6) weights

abbrev pub remainders : ℕ → List Share → List ℕ
remainders x weights = map (λ w. x * w.e6 % one_e6) weights

-- `weights.iter().map(|w| u64::from(w.0)).sum()`
abbrev pub total_e6 : List Share → ℕ
total_e6 weights = sum (map (λ w. w.e6) weights)

unfoldable pub split_weighted_u128 : ℕ → List Share → Result (List ℕ)
unfolding comes_first sort_by bump
split_weighted_u128 x weights =
    if total_e6 weights % u64_mod == one_e6
    then (let pieces = floors x weights in
        let left = x - sum pieces in
        let order = sort_by (comes_first (remainders x weights)) (count_from 0 (length pieces)) in
        ok (bump (take (left % u64_mod) order) pieces))
    else err invalid_share
