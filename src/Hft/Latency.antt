-- ===== src/Hft/Latency.antt =====
-- The rolling-window latency tracker: src/hft/latency.rs. The buffer is a list of 1024 samples. An
-- index that is out of bounds, where the source would panic, is `none`.
pub mod Sorting
pub mod Window
pub mod Ranks
pub mod Extremes
pub mod Stats
mod Tests
use perpcity_rust_sdk.Base.{
  ℕ, zero, suc, ◌+◌, ◌-◌, ◌*◌, ◌/◌, ◌%◌, min, max, Option, none, some, List, [], ◌∷◌, Bool, ltb,
  leb, ◌==◌, if◌then◌else◌, length, get_elem?, set, take, replicate,
}
use perpcity_rust_sdk.Base.Word.{u64_mod, u64_max}

abbrev pub max_samples : ℕ
max_samples = 1024

pub record LatencyStats : Type 0 where
  pub count : ℕ
  pub min_ns : ℕ
  pub max_ns : ℕ
  pub avg_ns : ℕ
  pub p50_ns : ℕ
  pub p95_ns : ℕ
  pub p99_ns : ℕ

pub record LatencyTracker : Type 0 where
  pub samples : List ℕ
  pub sample_count : ℕ
  pub write_index : ℕ
  pub total_count : ℕ
  pub min_ns : ℕ
  pub max_ns : ℕ

unfoldable pub new : LatencyTracker
new = record {
  samples = replicate max_samples 0;
  sample_count = 0;
  write_index = 0;
  total_count = 0;
  min_ns = u64_max;
  max_ns = 0;
}

-- The method `record`. `& (MAX_SAMPLES - 1)` is the remainder by a power of two.
unfoldable pub record_latency : ℕ → LatencyTracker → LatencyTracker
record_latency latency_ns t =
    let idx = t.write_index % max_samples in
    record {
      samples = set t.samples idx latency_ns;
      sample_count = if ltb t.sample_count max_samples then t.sample_count + 1 else t.sample_count;
      write_index = idx + 1;
      total_count = (t.total_count + 1) % u64_mod;
      min_ns = min t.min_ns latency_ns;
      max_ns = max t.max_ns latency_ns;
    }

unfoldable pub record_elapsed : ℕ → ℕ → LatencyTracker → ℕ × LatencyTracker
unfolding record_latency
record_elapsed start_ns end_ns t =
    let elapsed = end_ns - start_ns in (elapsed, record_latency elapsed t)

unfoldable pub reset : LatencyTracker → LatencyTracker
unfolding new
reset t = new

-- `sort_unstable`
unfoldable pub insert_sorted : ℕ → List ℕ → List ℕ
insert_sorted x [] = x ∷ []
insert_sorted x (y ∷ ys) = if leb x y then x ∷ y ∷ ys else y ∷ insert_sorted x ys

unfoldable pub sort : List ℕ → List ℕ
unfolding insert_sorted
sort [] = []
sort (x ∷ xs) = insert_sorted x (sort xs)

unfoldable pub sum : List ℕ → ℕ
sum [] = 0
sum (x ∷ xs) = x + sum xs

-- The index of the nearest rank: `div_ceil`, one less, and at most the last.
unfoldable pub rank_index : ℕ → ℕ → ℕ
rank_index n p = min ((n * p + 99) / 100 - 1) (n - 1)

unfoldable pub percentile : List ℕ → ℕ → Option ℕ
unfolding rank_index
percentile sorted p = get_elem? sorted (rank_index (length sorted) p)

-- The samples that `stats` reads.
abbrev pub window : LatencyTracker → List ℕ
window t = take t.sample_count t.samples

unfoldable pub stats : LatencyTracker → Option LatencyStats
unfolding sort sum percentile
stats t =
    if t.sample_count == 0
    then none
    else (let sorted = sort (window t) in
        elim (percentile sorted 50) [
          | none ↦ none
          | some p50 ↦ elim (percentile sorted 95) [
            | none ↦ none
            | some p95 ↦ elim (percentile sorted 99) [
              | none ↦ none
              | some p99 ↦ some (record {
                count = t.total_count;
                min_ns = t.min_ns;
                max_ns = t.max_ns;
                avg_ns = sum sorted / t.sample_count % u64_mod;
                p50_ns = p50;
                p95_ns = p95;
                p99_ns = p99;
              })
            ]
          ]
        ])
