-- ===== src/Units/Share/Sums.antt =====
-- Sums of lists of numbers, and the lists of indices that a sort and a prefix keep.
use perpcity_rust_sdk.Base.{
  ℕ, zero, suc, ◌+◌, ◌≤◌, ◌<◌, ◌≡◌, min, refl, ap, ◌∙◌, subst, sym, Bool, ◌==◌, if◌then◌else◌, List,
  [], ◌∷◌, length, take, modify, length-modify, All, arith, Bool-cases, inl, inr,
}
use perpcity_rust_sdk.Units.Share.{sum, count_from, insert_by, sort_by, bump, at}

-- How often an index occurs.
abbrev pub count : ℕ → List ℕ → ℕ
count i [] = 0
count i (j ∷ js) = (if j == i then 1 else 0) + count i js

module _ (less : ℕ → ℕ → Bool) where
  length-insert_by : (i : ℕ) (js : List ℕ) → length (insert_by less i js) ≡ suc (length js)
  unfolding insert_by
  length-insert_by i [] = refl
  length-insert_by i (j ∷ js) = ground (arith, length-insert_by i js)

  pub length-sort_by : (is : List ℕ) → length (sort_by less is) ≡ length is
  unfolding sort_by
  length-sort_by [] = refl
  length-sort_by (i ∷ is) = length-insert_by i (sort_by less is) ∙ ap suc (length-sort_by is)

  All-insert_by :
      (n i : ℕ) (js : List ℕ) → i < n → All (λ j. j < n) js → All (λ j. j < n) (insert_by less i js)
  unfolding insert_by
  All-insert_by n i [] h a = (h, tt)
  All-insert_by n i (j ∷ js) h (b, a) = elim (Bool-cases (less i j)) [
    | inl q ↦ rw (q, All) (h, (b, a))
    | inr q ↦ rw (q, All) (b, All-insert_by n i js h a)
  ]

  pub All-sort_by : (n : ℕ) (is : List ℕ) → All (λ j. j < n) is → All (λ j. j < n) (sort_by less is)
  unfolding sort_by
  All-sort_by n [] a = tt
  All-sort_by n (i ∷ is) (h, a) = All-insert_by n i (sort_by less is) h (All-sort_by n is a)

  count-insert_by : (k i : ℕ) (js : List ℕ) → count k (insert_by less i js) ≡ count k (i ∷ js)
  unfolding insert_by
  count-insert_by k i [] = refl
  count-insert_by k i (j ∷ js) = ground (arith, count-insert_by k i js)

  pub count-sort_by : (k : ℕ) (is : List ℕ) → count k (sort_by less is) ≡ count k is
  unfolding sort_by
  count-sort_by k [] = refl
  count-sort_by k (i ∷ is) =
      count-insert_by k i (sort_by less is)
      ∙ ap (λ x. (if i == k then 1 else 0) + x) (count-sort_by k is)

pub All-take : (n m : ℕ) (is : List ℕ) → All (λ j. j < n) is → All (λ j. j < n) (take m is)
All-take n zero is a = tt
All-take n (suc m) [] a = tt
All-take n (suc m) (i ∷ is) (h, a) = (h, All-take n m is a)

pub length-take : (m : ℕ) (is : List ℕ) → length (take m is) ≡ min m (length is)
length-take zero is = omega arith
length-take (suc m) [] = omega arith
length-take (suc m) (i ∷ is) = omega (arith, length-take m is)

pub count-take : (k m : ℕ) (is : List ℕ) → count k (take m is) ≤ count k is
count-take k zero is = omega arith
count-take k (suc m) [] = omega arith
count-take k (suc m) (i ∷ is) = let rest = count-take k m is in omega (arith, rest)

pub length-count_from : (a n : ℕ) → length (count_from a n) ≡ n
length-count_from a zero = refl
length-count_from a (suc n) = ap suc (length-count_from (suc a) n)

pub All-count_from : (a n m : ℕ) → a + n ≤ m → All (λ j. j < m) (count_from a n)
All-count_from a zero m h = tt
All-count_from a (suc n) m h = (omega arith, All-count_from (suc a) n m (omega arith))

count-count_from_below : (k a n : ℕ) → k < a → count k (count_from a n) ≡ 0
count-count_from_below k a zero h = refl
count-count_from_below k a (suc n) h =
    ground (arith, count-count_from_below k (suc a) n (omega arith))

pub count-count_from : (k a n : ℕ) → count k (count_from a n) ≤ 1
count-count_from k a zero = omega arith
count-count_from k a (suc n) =
    ground (arith, count-count_from k (suc a) n, count-count_from_below k (suc a) n)

sum-modify : (i : ℕ) (xs : List ℕ) → i < length xs → sum (modify i suc xs) ≡ suc (sum xs)
sum-modify i [] h = absurd (omega arith)
sum-modify zero (x ∷ xs) h = omega arith
sum-modify (suc i) (x ∷ xs) h = omega (arith, sum-modify i xs (omega arith))

pub sum-bump :
    (is xs : List ℕ) → All (λ i. i < length xs) is → sum (bump is xs) ≡ sum xs + length is
unfolding bump
sum-bump [] xs a = omega arith
sum-bump (i ∷ is) xs (h, a) =
    let rest =
      sum-bump is (modify i suc xs)
        (subst (λ n. All (λ j. j < n) is) (sym (length-modify i suc xs)) a) in
    omega (arith, rest, sum-modify i xs h)

pub length-bump : (is xs : List ℕ) → length (bump is xs) ≡ length xs
unfolding bump
length-bump [] xs = refl
length-bump (i ∷ is) xs = length-bump is (modify i suc xs) ∙ length-modify i suc xs

at-modify :
    (i k : ℕ) (xs : List ℕ)
    → i < length xs
    → at (modify i suc xs) k ≡ at xs k + (if i == k then 1 else 0)
at-modify i k [] h = absurd (omega arith)
at-modify zero zero (x ∷ xs) h = omega arith
at-modify zero (suc k) (x ∷ xs) h = ground arith
at-modify (suc i) zero (x ∷ xs) h = ground arith
at-modify (suc i) (suc k) (x ∷ xs) h = ground (arith, at-modify i k xs (omega arith))

pub at-bump :
    (k : ℕ) (is xs : List ℕ)
    → All (λ i. i < length xs) is
    → at (bump is xs) k ≡ at xs k + count k is
unfolding bump
at-bump k [] xs a = omega arith
at-bump k (i ∷ is) xs (h, a) =
    let rest =
      at-bump k is (modify i suc xs)
        (subst (λ n. All (λ j. j < n) is) (sym (length-modify i suc xs)) a) in
    omega (arith, rest, at-modify i k xs h)
