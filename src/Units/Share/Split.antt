-- ===== src/Units/Share/Split.antt =====
-- Splits conserve the amount: what goes out in pieces is what went in.
use native.Mathlib.Nat.{mod-lt, div-add-mod}
use perpcity_rust_sdk.Base.{
  ℕ, zero, suc, ◌+◌, ◌-◌, ◌*◌, ◌/◌, ◌%◌, ◌≤◌, ◌<◌, ◌≡◌, ◌≢◌, ◌⊎◌, inl, inr, min, refl, ap, ◌∙◌, ltb,
  ◌==◌, ◌||◌, List, [], ◌∷◌, map, length, take, All, arith, Bool-cases, some, none,
}
use perpcity_rust_sdk.Base.Word.{u64_mod}
use perpcity_rust_sdk.Base.Division.{div_bounds}
use perpcity_rust_sdk.Base.Result.{ok, err, invalid_share}
use perpcity_rust_sdk.Units.Share.{
  Share, one_e6, sum, at, count_from, one_below, floors, remainders, total_e6, comes_first, sort_by,
  bump, split_u128, split_weighted_u128, of_u128,
}
use perpcity_rust_sdk.Units.Share.Sums.{
  count, length-sort_by, All-sort_by, count-sort_by, All-take, length-take, count-take,
  length-count_from, All-count_from, count-count_from, sum-bump, length-bump, at-bump,
}
use perpcity_rust_sdk.Units.Share.Ranked.{IsAhead, ahead_taken}

even_sum :
    (q r a n : ℕ) → sum (map (λ i. q + one_below i r) (count_from a n)) ≡ n * q + min (r - a) n
even_sum q r a zero = omega arith
even_sum q r a (suc n) =
    let more : suc n * q ≡ q + n * q = grind arith in ground (arith, more, even_sum q r (suc a) n)

even_length : (q r a n : ℕ) → length (map (λ i. q + one_below i r) (count_from a n)) ≡ n
even_length q r a zero = refl
even_length q r a (suc n) = ap suc (even_length q r (suc a) n)

even_at :
    (q r a n i : ℕ)
    → i < n
    → at (map (λ i. q + one_below i r) (count_from a n)) i ≡ q + one_below (a + i) r
even_at q r a zero i h = absurd (omega arith)
even_at q r a (suc n) zero h = ground arith
even_at q r a (suc n) (suc i) h = ground (arith, even_at q r (suc a) n i (omega arith))

-- An even split into one part or more has as many pieces as asked for, none larger than one before
-- it or smaller by more than one than another, and they add up to the whole.
pub split_u128_conserves :
    (x n : ℕ)
    → 0 < n
    → (sum (split_u128 x n) ≡ x)
      × (length (split_u128 x n) ≡ n)
      × ((i j : ℕ)
          → i ≤ j
          → j < n
          → (at (split_u128 x n) j ≤ at (split_u128 x n) i)
            × (at (split_u128 x n) i ≤ suc (at (split_u128 x n) j)))
unfolding split_u128
split_u128_conserves x n h =
    let small : x % n < n = mod-lt x h in
    let whole = div-add-mod x n in
    (
      omega (arith, even_sum (x / n) (x % n) 0 n),
      even_length (x / n) (x % n) 0 n,
      λ i j a b.
          ground
            (arith, even_at (x / n) (x % n) 0 n i (omega arith), even_at (x / n) (x % n) 0 n j b),
    )

-- The floors and the remainders of a split by weights.
weighted_sum :
    (x : ℕ) (ws : List Share)
    → (sum (floors x ws) * one_e6 + sum (remainders x ws) ≡ x * total_e6 ws)
      × (sum (remainders x ws) ≤ length ws * 999999)
      × (length (floors x ws) ≡ length ws)
weighted_sum x [] = (grind arith, omega arith, refl)
weighted_sum x (w ∷ ws) =
    let (a, b, c) = weighted_sum x ws in
    let more : x * (w.e6 + total_e6 ws) ≡ x * w.e6 + x * total_e6 ws = grind arith in
    (omega arith, omega arith, omega arith)

-- What a split by weights returns: pieces that add up to the whole, each its weight's floor or one
-- atom more; where a piece got one, so did each with a larger remainder, or with the same remainder
-- and a smaller index.
pub record IsSplit (x : ℕ) (weights : List Share) (pieces : List ℕ) : Type 0 where
  pub conserved : sum pieces ≡ x
  pub as_many : length pieces ≡ length weights
  pub fair :
      (i : ℕ)
      → (at (floors x weights) i ≤ at pieces i) × (at pieces i ≤ suc (at (floors x weights) i))
  pub ranked :
      (i j : ℕ)
      → j < length weights
      → IsAhead (remainders x weights) j i
      → at (floors x weights) i < at pieces i
      → at (floors x weights) j < at pieces j

total_bound : (ws : List Share) → All (λ w. w.e6 ≤ one_e6) ws → total_e6 ws ≤ length ws * one_e6
total_bound [] a = omega arith
total_bound (w ∷ ws) (h, a) = let rest = total_bound ws a in omega (arith, rest)

-- The atoms that flooring leaves are fewer than the pieces.
left_bound : (x s r n : ℕ) → s * one_e6 + r ≡ x * one_e6 → r ≤ n * 999999 → (s ≤ x) × (x - s ≤ n)
left_bound x s r n h b = (omega arith, omega arith)

spread_lem :
    (x left : ℕ) (ws : List Share)
    → left ≡ x - sum (floors x ws)
    → sum (floors x ws) ≤ x
    → left ≤ length (floors x ws)
    → length (floors x ws) ≡ length ws
    → IsSplit x ws (
        bump
          (take left
            (sort_by (comes_first (remainders x ws)) (count_from 0 (length (floors x ws)))))
          (floors x ws))
spread_lem x left ws e below few same =
    let less = comes_first (remainders x ws) in
    let n = length (floors x ws) in
    let order = sort_by less (count_from 0 n) in
    let whole : length order ≡ n = length-sort_by less (count_from 0 n) ∙ length-count_from 0 n in
    let inside : All (λ i. i < n) (take left order) =
      All-take n left order
        (All-sort_by less n (count_from 0 n) (All-count_from 0 n n (omega arith))) in
    let total = sum-bump (take left order) (floors x ws) inside in
    let taken = length-take left order in
    let once : (i : ℕ) → count i (take left order) ≤ 1 = λ i.
      let here = count-take i left order in
      let sorted = count-sort_by less i (count_from 0 n) in
      let one = count-count_from i 0 n in omega (arith, here, sorted, one) in
    record {
      conserved = omega arith;
      as_many = length-bump (take left order) (floors x ws) ∙ same;
      fair = λ i.
          let raised = at-bump i (take left order) (floors x ws) inside in
          let few' = once i in (omega arith, omega arith);
      ranked = λ i j h ahead up.
          let raised = at-bump i (take left order) (floors x ws) inside in
          let mine = at-bump j (take left order) (floors x ws) inside in
          let taken_i : 0 < count i (take left order) = omega (arith, raised) in
          let taken_j =
            ahead_taken (remainders x ws) i j left n ahead (omega (arith, same)) taken_i in
          omega (arith, mine, taken_j);
    }

-- A split by fewer than 2^44 weights, none above the whole, is refused just where they do not make
-- the whole; else it conserves the amount, with a piece for each weight that is the floor of its
-- part or one atom more. Those with the larger remainders get the atoms, and of equal remainders the
-- earlier ones.
pub split_weighted_u128_conserves :
    (x : ℕ) (weights : List Share)
    → All (λ w. w.e6 ≤ one_e6) weights
    → length weights < 17592186044416
    → ((total_e6 weights ≢ one_e6) × (split_weighted_u128 x weights ≡ err invalid_share))
      ⊎ ((total_e6 weights ≡ one_e6)
          × (pieces : List ℕ) × (split_weighted_u128 x weights ≡ ok pieces)
          × IsSplit x weights pieces)
unfolding split_weighted_u128
split_weighted_u128_conserves x weights a few =
    let bound = total_bound weights a in
    let (sums, rests, same) = weighted_sum x weights in
    elim (Bool-cases (total_e6 weights % u64_mod == one_e6)) [
      | inl q ↦
          let total : total_e6 weights ≡ one_e6 = ground arith in
          let exact : sum (floors x weights) * one_e6 + sum (remainders x weights) ≡ x * one_e6 =
            sums ∙ ap (λ t. x * t) total in
          let (below, less) = left_bound x _ _ (length weights) exact rests in
          let left = x - sum (floors x weights) in
          inr (
            total,
            bump
                (take (left % u64_mod) (
                  sort_by (comes_first (remainders x weights))
                    (count_from 0 (length (floors x weights)))))
                (floors x weights),
            rw q refl,
            spread_lem x (left % u64_mod) weights (omega arith) below (omega arith) same,
          )
      | inr q ↦ inl (λ e. ground arith, rw q refl)
    ]

at_most_one : (q whole : ℕ) → q * whole < (one_e6 + 1) * whole → q ≤ one_e6
at_most_one q whole h = elim (Bool-cases (ltb one_e6 q)) [
  | inl b ↦
      let more : one_e6 + 1 ≤ q = ground arith in
      let wide : (one_e6 + 1) * whole ≤ q * whole = grind arith in absurd (omega arith)
  | inr b ↦ ground arith
]

-- A part's share of its whole is the nearest millionth, at most the whole; there is none of an empty
-- whole, nor of a part larger than its whole.
pub of_u128_nearest :
    (part whole : ℕ)
    → (((whole ≡ 0) ⊎ (whole < part)) × (of_u128 part whole ≡ none))
      ⊎ ((s : Share) × (of_u128 part whole ≡ some s)
          × (s.e6 ≤ one_e6)
          × (2 * (s.e6 * whole) ≤ 2 * (part * one_e6) + whole)
          × (2 * (part * one_e6) ≤ 2 * (s.e6 * whole) + whole))
unfolding of_u128
of_u128_nearest part whole = elim (Bool-cases ((whole == 0) || ltb whole part)) [
  | inl q ↦ inl (ground arith, rw q refl)
  | inr q ↦
      let some_whole : 0 < whole = ground arith in
      let part_of : part ≤ whole = ground arith in
      let n = part * one_e6 + whole / 2 in
      let (low, high) = div_bounds n whole some_whole in
      inr (
        record { e6 = n / whole },
        rw q refl,
        at_most_one (n / whole) whole (omega arith),
        omega arith,
        omega arith,
      )
]
