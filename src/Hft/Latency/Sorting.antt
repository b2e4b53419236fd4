-- ===== src/Hft/Latency/Sorting.antt =====
-- Sorting keeps the samples, their number and their sum, and orders them.
use perpcity_rust_sdk.Base.{
  ℕ, zero, suc, ◌+◌, ◌*◌, ◌/◌, ◌≤◌, ◌<◌, ◌≡◌, refl, some, List, [], ◌∷◌, arith, leb, length,
  get_elem?, All, Bool-cases, inl, inr, leb→le, subst,
}
use perpcity_rust_sdk.Base.Division.{div_bounds}
use perpcity_rust_sdk.Hft.Latency.{insert_sorted, sort, sum}

length-insert_sorted : (x : ℕ) (xs : List ℕ) → length (insert_sorted x xs) ≡ suc (length xs)
unfolding insert_sorted
length-insert_sorted x [] = refl
length-insert_sorted x (y ∷ ys) = ground (arith, length-insert_sorted x ys)

pub length-sort : (xs : List ℕ) → length (sort xs) ≡ length xs
unfolding sort
length-sort [] = refl
length-sort (x ∷ xs) = omega (arith, length-insert_sorted x (sort xs), length-sort xs)

sum-insert_sorted : (x : ℕ) (xs : List ℕ) → sum (insert_sorted x xs) ≡ x + sum xs
unfolding insert_sorted sum
sum-insert_sorted x [] = refl
sum-insert_sorted x (y ∷ ys) = ground (arith, sum-insert_sorted x ys)

pub sum-sort : (xs : List ℕ) → sum (sort xs) ≡ sum xs
unfolding sort sum
sum-sort [] = refl
sum-sort (x ∷ xs) = omega (arith, sum-insert_sorted x (sort xs), sum-sort xs)

insert_sorted-All :
    (P : ℕ → Type 0) (x : ℕ) (xs : List ℕ) → P x → All P xs → All P (insert_sorted x xs)
unfolding insert_sorted
insert_sorted-All P x [] p a = (p, a)
insert_sorted-All P x (y ∷ ys) p a = ground (arith, insert_sorted-All P x ys p a.1)

pub sort-All : (P : ℕ → Type 0) (xs : List ℕ) → All P xs → All P (sort xs)
unfolding sort
sort-All P [] a = a
sort-All P (x ∷ xs) a = insert_sorted-All P x (sort xs) a.0 (sort-All P xs a.1)

-- Every element is at most those after it.
abbrev pub IsSorted : List ℕ → Type 0
IsSorted [] = Unit
IsSorted (x ∷ xs) = All (λ y. x ≤ y) xs × IsSorted xs

All-le_trans : (x y : ℕ) (xs : List ℕ) → x ≤ y → All (λ z. y ≤ z) xs → All (λ z. x ≤ z) xs
All-le_trans x y [] h a = tt
All-le_trans x y (z ∷ zs) h a = (omega (arith, a.0), All-le_trans x y zs h a.1)

insert_sorted-IsSorted : (x : ℕ) (xs : List ℕ) → IsSorted xs → IsSorted (insert_sorted x xs)
unfolding insert_sorted
insert_sorted-IsSorted x [] s = (tt, tt)
insert_sorted-IsSorted x (y ∷ ys) s = elim (Bool-cases (leb x y)) [
  | inl c ↦
      let l : x ≤ y = leb→le x y c in rw (c, insert_sorted) ((l, All-le_trans x y ys l s.0), s)
  | inr c ↦
      let l : y ≤ x = ground arith in
      rw (c, insert_sorted)
        (insert_sorted-All (λ z. y ≤ z) x ys l s.0, insert_sorted-IsSorted x ys s.1)
]

pub sort-IsSorted : (xs : List ℕ) → IsSorted (sort xs)
unfolding sort
sort-IsSorted [] = tt
sort-IsSorted (x ∷ xs) = insert_sorted-IsSorted x (sort xs) (sort-IsSorted xs)

pub All-get : (P : ℕ → Type 0) (xs : List ℕ) (i x : ℕ) → All P xs → get_elem? xs i ≡ some x → P x
All-get P [] i x a e = cc
All-get P (y ∷ ys) zero x a e = subst P (let q : y ≡ x = cc in q) a.0
All-get P (y ∷ ys) (suc i) x a e = All-get P ys i x a.1 e

pub IsSorted-le :
    (xs : List ℕ) (i j x y : ℕ)
    → IsSorted xs
    → i ≤ j
    → get_elem? xs i ≡ some x
    → get_elem? xs j ≡ some y
    → x ≤ y
IsSorted-le [] i j x y s h e f = cc
IsSorted-le (z ∷ zs) zero zero x y s h e f = ground arith
IsSorted-le (z ∷ zs) zero (suc j) x y s h e f =
    let q : z ≡ x = cc in omega (arith, q, All-get (λ w. z ≤ w) zs j y s.0 f)
IsSorted-le (z ∷ zs) (suc i) zero x y s h e f = absurd (omega arith)
IsSorted-le (z ∷ zs) (suc i) (suc j) x y s h e f = IsSorted-le zs i j x y s.1 (omega arith) e f

sum_bounds :
    (lo hi : ℕ) (xs : List ℕ)
    → All (λ x. (lo ≤ x) × (x ≤ hi)) xs
    → (lo * length xs ≤ sum xs) × (sum xs ≤ hi * length xs)
unfolding sum
sum_bounds lo hi [] a = (omega arith, omega arith)
sum_bounds lo hi (x ∷ xs) a =
    let (p, q) = sum_bounds lo hi xs a.1 in (grind (arith, a.0), grind (arith, a.0))

-- The mean of samples between two bounds is between them.
pub mean_bounds :
    (lo hi : ℕ) (xs : List ℕ)
    → 0 < length xs
    → All (λ x. (lo ≤ x) × (x ≤ hi)) xs
    → (lo ≤ sum xs / length xs) × (sum xs / length xs ≤ hi)
mean_bounds lo hi xs h a =
    let (p, q) = sum_bounds lo hi xs a in
    let (up, down) = div_bounds (sum xs) (length xs) h in (grind arith, grind arith)
