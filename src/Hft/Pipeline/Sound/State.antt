-- ===== src/Hft/Pipeline/Sound/State.antt =====
-- Soundness: what holds of the pipeline and its callers between two calls.
use perpcity_rust_sdk.Base.{
  ℕ, ◌+◌, ◌≤◌, ◌<◌, ◌≡◌, refl, some, none, arith, ◌==◌, length, if◌then◌else◌,
}
use perpcity_rust_sdk.Base.Dict.{Dict, lookup, insert, erase, IsMap, lookup-insert, lookup-erase}
use perpcity_rust_sdk.Base.Word.{u64_mod}
use perpcity_rust_sdk.Hft.Nonce.{PendingTx}
use perpcity_rust_sdk.Hft.Pipeline.{PipelineConfig, new}
use perpcity_rust_sdk.Hft.Pipeline.World.{World, start, times, flying, next_nonce}

-- Whether the pending map of the nonce manager holds a nonce.
abbrev pub holds : ℕ → Dict PendingTx → ℕ
holds n d = elim (lookup n d) [ none ↦ 0 | some tx ↦ 1 ]

-- How many transactions hold a nonce.
abbrev pub holders : ℕ → World → ℕ
holders n w = times n w.prepared + flying n w.pipe.in_flight

pub record IsSound (w : World) : Type 0 where
  pub in_range : next_nonce w < u64_mod
  pub few : length w.prepared < u64_mod
  pub counted : w.pipe.preparing ≡ length w.prepared
  pub pending_map : IsMap w.pipe.nonce_mgr.pending
  pub flight_map : IsMap w.pipe.in_flight
  pub unique : (n : ℕ) → holders n w ≤ 1
  pub below : (n : ℕ) → next_nonce w ≤ n → holders n w ≡ 0
  pub tracked : (n : ℕ) → holds n w.pipe.nonce_mgr.pending ≡ flying n w.pipe.in_flight

pub holds-insert :
    (n k : ℕ) (tx : PendingTx) (d : Dict PendingTx)
    → holds n (insert k tx d) ≡ (if n == k then 1 else holds n d)
holds-insert n k tx d = rw (lookup-insert n k tx d, holds) (ground arith)

pub holds-erase :
    (n k : ℕ) (d : Dict PendingTx)
    → IsMap d
    → holds n (erase k d) ≡ (if n == k then 0 else holds n d)
holds-erase n k d h = rw (lookup-erase n k d h, holds) (ground arith)

-- A new pipeline is sound.
pub start-IsSound : (n : ℕ) (config : PipelineConfig) → n < u64_mod → IsSound (start n config)
unfolding new
start-IsSound n config h = record {
  in_range = h;
  few = omega arith;
  counted = refl;
  pending_map = tt;
  flight_map = tt;
  unique = λ n. omega arith;
  below = λ n _. omega arith;
  tracked = λ n. refl;
}
