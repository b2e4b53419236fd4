-- ===== src/Units/Share/Ranked.antt =====
-- The order in which a split by weights hands out what flooring leaves: a sort by the remainders, of
-- which a prefix is taken.
use perpcity_rust_sdk.Base.{
  ℕ, zero, suc, ◌+◌, ◌≤◌, ◌<◌, ◌≡◌, ◌⊎◌, inl, inr, Bool, true, false, ◌==◌, List, [], ◌∷◌, take,
  All, arith, Bool-cases,
}
use perpcity_rust_sdk.Units.Share.{insert_by, sort_by, comes_first, count_from, at}
use perpcity_rust_sdk.Units.Share.Sums.{count, count-sort_by}

-- A strict order.
pub record IsStrict (less : ℕ → ℕ → Bool) : Type 0 where
  pub asym : (a b : ℕ) → less a b ≡ true → less b a ≡ false
  pub trans : (a b c : ℕ) → less a b ≡ true → less b c ≡ true → less a c ≡ true

module _ (less : ℕ → ℕ → Bool) (strict : IsStrict less) where
  -- No element comes before one that stands before it.
  abbrev Ordered : List ℕ → Type 0
  Ordered [] = Unit
  Ordered (k ∷ ks) = All (λ m. less m k ≡ false) ks × Ordered ks

  kept-insert_by :
      (i k : ℕ) (ks : List ℕ)
      → less i k ≡ false
      → All (λ m. less m k ≡ false) ks
      → All (λ m. less m k ≡ false) (insert_by less i ks)
  unfolding insert_by
  kept-insert_by i k [] h a = (h, tt)
  kept-insert_by i k (j ∷ js) h (b, a) = elim (Bool-cases (less i j)) [
    | inl q ↦ rw (q, All) (h, (b, a))
    | inr q ↦ rw (q, All) (b, kept-insert_by i k js h a)
  ]

  not_before : (i m k : ℕ) → less i k ≡ true → less m k ≡ false → less m i ≡ false
  not_before i m k h a = elim (Bool-cases (less m i)) [
    | inl q ↦ let t = strict.trans m i k q h in cc
    | inr q ↦ q
  ]

  below_head :
      (i k : ℕ) (ks : List ℕ)
      → less i k ≡ true
      → All (λ m. less m k ≡ false) ks
      → All (λ m. less m i ≡ false) ks
  below_head i k [] h a = tt
  below_head i k (m ∷ ms) h (b, a) = (not_before i m k h b, below_head i k ms h a)

  insert_by-Ordered : (i : ℕ) (js : List ℕ) → Ordered js → Ordered (insert_by less i js)
  unfolding insert_by
  insert_by-Ordered i [] o = (tt, tt)
  insert_by-Ordered i (k ∷ ks) (a, o) = elim (Bool-cases (less i k)) [
    | inl q ↦ rw (q, Ordered) ((strict.asym i k q, below_head i k ks q a), (a, o))
    | inr q ↦ rw (q, Ordered) (kept-insert_by i k ks q a, insert_by-Ordered i ks o)
  ]

  sort_by-Ordered : (is : List ℕ) → Ordered (sort_by less is)
  unfolding sort_by
  sort_by-Ordered [] = tt
  sort_by-Ordered (i ∷ is) = insert_by-Ordered i (sort_by less is) (sort_by-Ordered is)

  All-count :
      (j k : ℕ) (ks : List ℕ) → All (λ m. less m k ≡ false) ks → 0 < count j ks → less j k ≡ false
  All-count j k [] a h = absurd (omega arith)
  All-count j k (m ∷ ms) (b, a) h = elim (Bool-cases (m == j)) [
    | inl q ↦ let same : m ≡ j = ground arith in cc
    | inr q ↦ All-count j k ms a (ground arith)
  ]

  -- What comes before an element of a prefix is in the prefix.
  prefix_closed :
      (i j m : ℕ) (ks : List ℕ)
      → Ordered ks
      → less j i ≡ true
      → 0 < count j ks
      → 0 < count i (take m ks)
      → 0 < count j (take m ks)
  prefix_closed i j zero ks o h c t = absurd (omega arith)
  prefix_closed i j (suc m) [] o h c t = absurd (omega arith)
  prefix_closed i j (suc m) (k ∷ ks) (a, o) h c t = elim (Bool-cases (k == j)) [
    | inl q ↦ ground arith
    | inr q ↦
        let later : 0 < count j ks = ground arith in
        elim (Bool-cases (k == i)) [
          | inl r ↦
              let same : k ≡ i = ground arith in
              let none_before = All-count j k ks a later in absurd (ground arith)
          | inr r ↦ let rest = prefix_closed i j m ks o h later (ground arith) in ground arith
        ]
  ]

-- One index is ahead of another: its remainder is larger, or equal and the index is less.
abbrev pub IsAhead : List ℕ → ℕ → ℕ → Type 0
IsAhead rests j i = (at rests i < at rests j) ⊎ ((at rests i ≡ at rests j) × (j < i))

comes_first-IsStrict : (rests : List ℕ) → IsStrict (comes_first rests)
unfolding comes_first
comes_first-IsStrict rests = record {
  asym = λ a b h. ground arith;
  trans = λ a b c h k. ground arith;
}

comes_first-ahead : (rests : List ℕ) (j i : ℕ) → IsAhead rests j i → comes_first rests j i ≡ true
unfolding comes_first
comes_first-ahead rests j i (inl h) = ground arith
comes_first-ahead rests j i (inr (e, h)) = ground arith

count_from-count : (k a n : ℕ) → a ≤ k → k < a + n → 0 < count k (count_from a n)
count_from-count k a zero h l = absurd (omega arith)
count_from-count k a (suc n) h l = elim (Bool-cases (a == k)) [
  | inl q ↦ ground arith
  | inr q ↦
      let rest = count_from-count k (suc a) n (ground arith) (omega arith) in omega (arith, rest)
]

-- An index that is ahead of one that was taken was taken too.
pub ahead_taken :
    (rests : List ℕ) (i j m n : ℕ)
    → IsAhead rests j i
    → j < n
    → 0 < count i (take m (sort_by (comes_first rests) (count_from 0 n)))
    → 0 < count j (take m (sort_by (comes_first rests) (count_from 0 n)))
ahead_taken rests i j m n h l t =
    let less = comes_first rests in
    let here = count_from-count j 0 n (omega arith) (omega arith) in
    let same = count-sort_by less j (count_from 0 n) in
    prefix_closed less (comes_first-IsStrict rests) i j m (sort_by less (count_from 0 n))
      (sort_by-Ordered less (comes_first-IsStrict rests) (count_from 0 n))
      (comes_first-ahead rests j i h) (omega (arith, same, here)) t
