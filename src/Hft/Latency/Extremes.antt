-- ===== src/Hft/Latency/Extremes.antt =====
-- The extremes of a tracker are the least and the greatest of the samples that it recorded.
use perpcity_rust_sdk.Base.{
  ℕ, ◌≤◌, ◌≡◌, ◌⊎◌, inl, inr, refl, sym, ◌∙◌, min, max, List, [], ◌∷◌, arith, All, leb, Bool-cases,
}
use perpcity_rust_sdk.Base.Word.{u64_max}
use perpcity_rust_sdk.Hft.Latency.{LatencyTracker, new, record_latency}
use perpcity_rust_sdk.Hft.Latency.Window.{record_all}

abbrev pub Occurs : ℕ → List ℕ → Type 0
Occurs v [] = ⊥
Occurs v (x ∷ xs) = (x ≡ v) ⊎ Occurs v xs

-- One of the samples, and at most each of them, or at least each of them.
abbrev pub IsLeast : ℕ → List ℕ → Type 0
IsLeast v xs = Occurs v xs × All (λ x. v ≤ x) xs

abbrev pub IsGreatest : ℕ → List ℕ → Type 0
IsGreatest v xs = Occurs v xs × All (λ x. x ≤ v) xs

record_all-min :
    (xs : List ℕ) (t : LatencyTracker)
    → ((record_all xs t).min_ns ≤ t.min_ns)
      × All (λ x. (record_all xs t).min_ns ≤ x) xs
      × (((record_all xs t).min_ns ≡ t.min_ns) ⊎ Occurs (record_all xs t).min_ns xs)
unfolding record_all record_latency
record_all-min [] t = (omega arith, tt, inl refl)
record_all-min (x ∷ xs) t =
    let (less, all, found) = record_all-min xs (record_latency x t) in
    (
      omega arith,
      (omega arith, all),
      elim found [
        | inr o ↦ inr (inr o)
        | inl e ↦ elim (Bool-cases (leb t.min_ns x)) [
          | inl b ↦ let old : min t.min_ns x ≡ t.min_ns = ground arith in inl (e ∙ old)
          | inr b ↦ let own : min t.min_ns x ≡ x = ground arith in inr (inl (sym (e ∙ own)))
        ]
      ],
    )

record_all-max :
    (xs : List ℕ) (t : LatencyTracker)
    → (t.max_ns ≤ (record_all xs t).max_ns)
      × All (λ x. x ≤ (record_all xs t).max_ns) xs
      × (((record_all xs t).max_ns ≡ t.max_ns) ⊎ Occurs (record_all xs t).max_ns xs)
unfolding record_all record_latency
record_all-max [] t = (omega arith, tt, inl refl)
record_all-max (x ∷ xs) t =
    let (more, all, found) = record_all-max xs (record_latency x t) in
    (
      omega arith,
      (omega arith, all),
      elim found [
        | inr o ↦ inr (inr o)
        | inl e ↦ elim (Bool-cases (leb x t.max_ns)) [
          | inl b ↦ let old : max t.max_ns x ≡ t.max_ns = ground arith in inl (e ∙ old)
          | inr b ↦ let own : max t.max_ns x ≡ x = ground arith in inr (inl (sym (e ∙ own)))
        ]
      ],
    )

pub min-IsLeast :
    (x : ℕ) (xs : List ℕ) → x ≤ u64_max → IsLeast (record_all (x ∷ xs) new).min_ns (x ∷ xs)
unfolding record_all record_latency new
min-IsLeast x xs h =
    let (less, all, found) = record_all-min xs (record_latency x new) in
    (
      elim found [
        | inl e ↦ let own : min u64_max x ≡ x = omega arith in inl (sym (e ∙ own))
        | inr o ↦ inr o
      ],
      (omega arith, all),
    )

pub max-IsGreatest : (x : ℕ) (xs : List ℕ) → IsGreatest (record_all (x ∷ xs) new).max_ns (x ∷ xs)
unfolding record_all record_latency new
max-IsGreatest x xs =
    let (more, all, found) = record_all-max xs (record_latency x new) in
    (
      elim found [
        | inl e ↦ let own : max 0 x ≡ x = omega arith in inl (sym (e ∙ own))
        | inr o ↦ inr o
      ],
      (omega arith, all),
    )
