-- ===== src/Hft/Latency/Stats.antt =====
-- The statistics of the recorded samples: their extremes, percentiles and mean.
use perpcity_rust_sdk.Base.{
  ℕ, zero, suc, ◌*◌, ◌/◌, ◌%◌, ◌≤◌, ◌<◌, ◌≡◌, ◌≢◌, ◌⊎◌, refl, sym, ap, ◌∙◌, subst, some, List, [],
  ◌∷◌, arith, ◌==◌, length, get_elem?, set, take, All, get_elem?_lt, length-set, length-replicate,
  Bool-cases, inl, inr,
}
use perpcity_rust_sdk.Base.Word.{u64_mod, u64_max}
use perpcity_rust_sdk.Hft.Latency.{
  LatencyTracker, LatencyStats, max_samples, new, record_latency, stats, window, sort, sum,
  percentile, rank_index,
}
use perpcity_rust_sdk.Hft.Latency.Sorting.{
  length-sort, sum-sort, sort-All, sort-IsSorted, IsSorted-le, All-get, mean_bounds,
}
use perpcity_rust_sdk.Hft.Latency.Extremes.{IsLeast, IsGreatest, min-IsLeast, max-IsGreatest}
use perpcity_rust_sdk.Hft.Latency.Ranks.{IsPercentile, percentile-IsPercentile}
use perpcity_rust_sdk.Hft.Latency.Window.{record_all, get_elem?-set_self, get_elem?-set_ne}

-- Every sample in the window lies between the extremes, and the extremes are words.
record Bounded (t : LatencyTracker) : Type 0 where
  sized : length t.samples ≡ max_samples
  filled : t.sample_count ≤ max_samples
  slot : (t.sample_count ≡ max_samples) ⊎ (t.write_index ≡ t.sample_count)
  words : t.max_ns ≤ u64_max
  within :
      (i x : ℕ)
      → i < t.sample_count
      → get_elem? t.samples i ≡ some x
      → (t.min_ns ≤ x) × (x ≤ t.max_ns)

new-Bounded : Bounded new
unfolding new
new-Bounded = record {
  sized = length-replicate {A = ℕ} max_samples 0;
  filled = omega arith;
  slot = inr refl;
  words = omega arith;
  within = λ i x h e. absurd (omega arith);
}

record_latency-Bounded :
    (t : LatencyTracker) (y : ℕ) → y ≤ u64_max → Bounded t → Bounded (record_latency y t)
unfolding record_latency
record_latency-Bounded t y w b =
    let idx = t.write_index % max_samples in
    let inside : idx < length t.samples = omega (arith, b.sized) in
    record {
      sized = length-set t.samples idx y ∙ b.sized;
      filled = ground (arith, b.filled);
      slot = ground (arith, b.slot, b.filled);
      words = omega (arith, b.words);
      within = λ i x h e. elim (Bool-cases (i == idx)) [
        | inl c ↦
            let q : idx ≡ i = ground arith in
            let v : some y ≡ some x =
              sym (get_elem?-set_self t.samples idx y inside)
              ∙ ap (get_elem? (set t.samples idx y)) q
              ∙ e in
            let same : y ≡ x = cc in (omega arith, omega arith)
        | inr c ↦
            let apart : idx ≢ i = λ q. ground arith in
            let old : get_elem? t.samples i ≡ some x =
              sym (get_elem?-set_ne t.samples idx i y apart) ∙ e in
            let lower : i < t.sample_count = ground (arith, b.slot, b.filled) in
            let (p, q) = b.within i x lower old in (omega arith, omega arith)
      ];
    }

record_all-Bounded :
    (xs : List ℕ) (t : LatencyTracker)
    → All (λ x. x ≤ u64_max) xs
    → Bounded t
    → Bounded (record_all xs t)
unfolding record_all
record_all-Bounded [] t a b = b
record_all-Bounded (x ∷ xs) t a b =
    record_all-Bounded xs (record_latency x t) a.1 (record_latency-Bounded t x a.0 b)

record_all-filled :
    (xs : List ℕ) (t : LatencyTracker) → 0 < t.sample_count → 0 < (record_all xs t).sample_count
unfolding record_all record_latency
record_all-filled [] t h = h
record_all-filled (x ∷ xs) t h = record_all-filled xs (record_latency x t) (ground arith)

take-All :
    (P : ℕ → Type 0) (n : ℕ) (xs : List ℕ)
    → ((i x : ℕ) → i < n → get_elem? xs i ≡ some x → P x)
    → All P (take n xs)
take-All P zero xs h = tt
take-All P (suc n) [] h = tt
take-All P (suc n) (x ∷ xs) h =
    (h 0 x (omega arith) refl, take-All P n xs (λ i y l e. h (suc i) y (omega arith) e))

length-take : (n : ℕ) (xs : List ℕ) → n ≤ length xs → length (take n xs) ≡ n
length-take zero xs h = refl
length-take (suc n) [] h = absurd (omega arith)
length-take (suc n) (x ∷ xs) h = ap suc (length-take n xs (omega arith))

percentile-some : (xs : List ℕ) (p : ℕ) → 0 < length xs → (v : ℕ) × (percentile xs p ≡ some v)
unfolding percentile rank_index
percentile-some xs p h = get_elem?_lt (rank_index (length xs) p) xs (omega arith)

percentile-le :
    (xs : List ℕ) (p q v w : ℕ)
    → p ≤ q
    → percentile (sort xs) p ≡ some v
    → percentile (sort xs) q ≡ some w
    → v ≤ w
unfolding percentile rank_index
percentile-le xs p q v w h e f =
    IsSorted-le (sort xs) _ _ v w (sort-IsSorted xs)
      (let n = length (sort xs) in let m : n * p ≤ n * q = grind arith in omega arith) e f

percentile-All :
    (P : ℕ → Type 0) (xs : List ℕ) (p v : ℕ) → All P xs → percentile (sort xs) p ≡ some v → P v
unfolding percentile
percentile-All P xs p v a e = All-get P (sort xs) _ v (sort-All P xs a) e

-- The statistics of a tracker in terms of its window and its own extremes.
abbrev pub InOrder : LatencyTracker → LatencyStats → Type 0
InOrder t s =
    (s.count ≡ t.total_count)
    × (s.min_ns ≡ t.min_ns)
    × (s.max_ns ≡ t.max_ns)
    × (s.min_ns ≤ s.p50_ns)
    × (s.p50_ns ≤ s.p95_ns)
    × (s.p95_ns ≤ s.p99_ns)
    × (s.p99_ns ≤ s.max_ns)
    × (s.min_ns ≤ s.avg_ns)
    × (s.avg_ns ≤ s.max_ns)
    × (s.avg_ns ≡ sum (window t) / length (window t))
    × IsPercentile 50 (window t) s.p50_ns
    × IsPercentile 95 (window t) s.p95_ns
    × IsPercentile 99 (window t) s.p99_ns

stats-InOrder :
    (t : LatencyTracker)
    → Bounded t
    → 0 < t.sample_count
    → (s : LatencyStats) × (stats t ≡ some s) × InOrder t s
unfolding stats
stats-InOrder t b h =
    let all = take-All (λ x. (t.min_ns ≤ x) × (x ≤ t.max_ns)) t.sample_count t.samples b.within in
    let n : length (window t) ≡ t.sample_count =
      length-take t.sample_count t.samples (omega (arith, b.sized, b.filled)) in
    let m = length-sort (window t) in
    let pos : 0 < length (sort (window t)) = omega (arith, n, m) in
    let some_left : 0 < length (window t) = omega (arith, n) in
    let (v50, e50) = percentile-some (sort (window t)) 50 pos in
    let (v95, e95) = percentile-some (sort (window t)) 95 pos in
    let (v99, e99) = percentile-some (sort (window t)) 99 pos in
    let (lo, hi) = mean_bounds t.min_ns t.max_ns (window t) (omega (arith, n)) all in
    let low = percentile-All _ (window t) 50 v50 all e50 in
    let high = percentile-All _ (window t) 99 v99 all e99 in
    let a = percentile-le (window t) 50 95 v50 v95 (omega arith) e50 e95 in
    let c = percentile-le (window t) 95 99 v95 v99 (omega arith) e95 e99 in
    let mean : sum (sort (window t)) / t.sample_count ≡ sum (window t) / length (window t) =
      ap (λ k. k / t.sample_count) (sum-sort (window t)) ∙ ap (λ k. sum (window t) / k) (sym n) in
    (
      record {
        count = t.total_count;
        min_ns = t.min_ns;
        max_ns = t.max_ns;
        avg_ns = sum (sort (window t)) / t.sample_count % u64_mod;
        p50_ns = v50;
        p95_ns = v95;
        p99_ns = v99;
      },
      ground arith,
      (
        refl,
        refl,
        refl,
        low.0,
        a,
        c,
        high.1,
        omega (arith, mean, b.words),
        omega (arith, mean, b.words),
        omega (arith, mean, b.words),
        percentile-IsPercentile (window t) 50 v50 some_left (omega arith) (omega arith) e50,
        percentile-IsPercentile (window t) 95 v95 some_left (omega arith) (omega arith) e95,
        percentile-IsPercentile (window t) 99 v99 some_left (omega arith) (omega arith) e99,
      ),
    )

-- After at least one sample, all of them words, the statistics exist. The minimum is the least and
-- the maximum the greatest of all the samples recorded. Of the samples that the buffer holds, the
-- median, the 95th and the 99th percentile are the nearest ranks (the least sample that at least so
-- many percent do not exceed) and the average is the mean, rounded down. The percentiles are in this
-- order between the minimum and the maximum, and the average lies between those two.
pub stats_ordered :
    (x : ℕ) (xs : List ℕ)
    → All (λ y. y ≤ u64_max) (x ∷ xs)
    → let t = record_all (x ∷ xs) new in
      (s : LatencyStats) × (stats t ≡ some s)
      × InOrder t s
      × IsLeast s.min_ns (x ∷ xs)
      × IsGreatest s.max_ns (x ∷ xs)
unfolding record_all record_latency new
stats_ordered x xs a =
    let t = record_all (x ∷ xs) new in
    let (s, e, o) =
      stats-InOrder t (record_all-Bounded (x ∷ xs) new a new-Bounded)
        (record_all-filled xs (record_latency x new) (omega arith)) in
    (
      s,
      e,
      o,
      subst (λ v. IsLeast v (x ∷ xs)) (sym o.1) (min-IsLeast x xs a.0),
      subst (λ v. IsGreatest v (x ∷ xs)) (sym o.2) (max-IsGreatest x xs),
    )
