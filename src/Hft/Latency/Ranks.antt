-- ===== src/Hft/Latency/Ranks.antt =====
-- The nearest rank: what it means for a value to be a percentile of samples in any order.
use perpcity_rust_sdk.Base.{
  ℕ, zero, suc, ◌+◌, ◌*◌, ◌≤◌, ◌<◌, ◌≡◌, refl, ap, some, List, [], ◌∷◌, arith, leb, ltb, length,
  get_elem?, All, if◌then◌else◌,
}
use perpcity_rust_sdk.Hft.Latency.{insert_sorted, sort, percentile, rank_index}
use perpcity_rust_sdk.Hft.Latency.Sorting.{IsSorted, sort-IsSorted, All-get, length-sort}

-- How many samples are at most a value, and how many are below it.
abbrev pub at_most : ℕ → List ℕ → ℕ
at_most v [] = 0
at_most v (x ∷ xs) = (if leb x v then 1 else 0) + at_most v xs

abbrev pub below : ℕ → List ℕ → ℕ
below v [] = 0
below v (x ∷ xs) = (if ltb x v then 1 else 0) + below v xs

-- The least sample that at least `p` percent of the samples do not exceed.
pub record IsPercentile (p : ℕ) (xs : List ℕ) (v : ℕ) : Type 0 where
  pub enough : p * length xs ≤ 100 * at_most v xs
  pub least : 100 * below v xs < p * length xs

at_most-insert_sorted :
    (v x : ℕ) (xs : List ℕ) → at_most v (insert_sorted x xs) ≡ at_most v (x ∷ xs)
unfolding insert_sorted
at_most-insert_sorted v x [] = refl
at_most-insert_sorted v x (y ∷ ys) = ground (arith, at_most-insert_sorted v x ys)

at_most-sort : (v : ℕ) (xs : List ℕ) → at_most v (sort xs) ≡ at_most v xs
unfolding sort
at_most-sort v [] = refl
at_most-sort v (x ∷ xs) = omega (arith, at_most-insert_sorted v x (sort xs), at_most-sort v xs)

below-insert_sorted : (v x : ℕ) (xs : List ℕ) → below v (insert_sorted x xs) ≡ below v (x ∷ xs)
unfolding insert_sorted
below-insert_sorted v x [] = refl
below-insert_sorted v x (y ∷ ys) = ground (arith, below-insert_sorted v x ys)

below-sort : (v : ℕ) (xs : List ℕ) → below v (sort xs) ≡ below v xs
unfolding sort
below-sort v [] = refl
below-sort v (x ∷ xs) = omega (arith, below-insert_sorted v x (sort xs), below-sort v xs)

below-none : (v : ℕ) (xs : List ℕ) → All (λ y. v ≤ y) xs → below v xs ≡ 0
below-none v [] a = refl
below-none v (x ∷ xs) (h, a) = ground (arith, below-none v xs a)

-- The element at an index of a sorted list has that many before it, and itself.
at_most-sorted : (xs : List ℕ) (i v : ℕ) → IsSorted xs → get_elem? xs i ≡ some v → i < at_most v xs
at_most-sorted [] i v s e = cc
at_most-sorted (x ∷ xs) zero v s e = let q : x ≡ v = cc in ground arith
at_most-sorted (x ∷ xs) (suc i) v s e =
    let le = All-get (λ w. x ≤ w) xs i v s.0 e in ground (arith, at_most-sorted xs i v s.1 e)

below-sorted : (xs : List ℕ) (i v : ℕ) → IsSorted xs → get_elem? xs i ≡ some v → below v xs ≤ i
below-sorted [] i v s e = cc
below-sorted (x ∷ xs) zero v s e =
    let q : x ≡ v = cc in
    let none_less = below-none x xs s.0 in
    let same : below x xs ≡ below v xs = ap (λ w. below w xs) q in ground arith
below-sorted (x ∷ xs) (suc i) v s e = let rest = below-sorted xs i v s.1 e in ground (arith, rest)

rank_bounds :
    (n p : ℕ)
    → 0 < n
    → 0 < p
    → p ≤ 100
    → (p * n ≤ 100 * (rank_index n p + 1)) × (100 * rank_index n p < p * n)
unfolding rank_index
rank_bounds n p h k l =
    let some_rank : 1 ≤ n * p = grind arith in
    let whole : n * p ≤ n * 100 = grind arith in
    let turn : p * n ≡ n * p = grind arith in (omega arith, omega arith)

-- What `percentile` finds in sorted samples is the percentile of the samples.
pub percentile-IsPercentile :
    (xs : List ℕ) (p v : ℕ)
    → 0 < length xs
    → 0 < p
    → p ≤ 100
    → percentile (sort xs) p ≡ some v
    → IsPercentile p xs v
unfolding percentile
percentile-IsPercentile xs p v h k l e =
    let n = length-sort xs in
    let i = rank_index (length (sort xs)) p in
    let (up, down) = rank_bounds (length (sort xs)) p (omega (arith, n)) k l in
    let many = at_most-sorted (sort xs) i v (sort-IsSorted xs) e in
    let few = below-sorted (sort xs) i v (sort-IsSorted xs) e in
    let a = at_most-sort v xs in
    let b = below-sort v xs in
    let size : p * length (sort xs) ≡ p * length xs = ap (λ k. p * k) n in
    record { enough = omega arith; least = omega arith }
