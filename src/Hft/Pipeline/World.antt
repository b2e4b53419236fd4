-- ===== src/Hft/Pipeline/World.antt =====
-- The pipeline with what its callers hold: the nonces between `prepare` and submission, the nonces
-- whose transactions were resolved, and the nonce of the last synchronisation with the chain. A step
-- is one call of the pipeline by a caller that keeps the calling discipline of its documentation.
use perpcity_rust_sdk.Base.{
  ℕ, ◌+◌, ◌<◌, ◌≡◌, some, none, List, [], ◌∷◌, Bool, true, false, ◌==◌, if◌then◌else◌, length,
}
use perpcity_rust_sdk.Base.Dict.{Dict, lookup}
use perpcity_rust_sdk.Base.Word.{u64_mod}
use perpcity_rust_sdk.Hft.Gas.{FeeCache}
use perpcity_rust_sdk.Hft.Pipeline.{
  TxPipeline, TxRequest, PreparedTx, InFlightTx, PipelineConfig, ok, new, prepare,
  record_submission, resolve, fail, abandon_prepared, mark_desynced_prepared, mark_desynced,
  can_resync, resync_nonce,
}

pub record World : Type 0 where
  pub pipe : TxPipeline
  pub prepared : List ℕ
  pub used : List ℕ
  pub base : ℕ

abbrev pub start : ℕ → PipelineConfig → World
start nonce config = record { pipe = new nonce config; prepared = []; used = []; base = nonce }

abbrev pub bit : Bool → ℕ
bit true = 1
bit false = 0

-- How often a nonce stands in a list.
abbrev pub times : ℕ → List ℕ → ℕ
times n [] = 0
times n (m ∷ ms) = bit (n == m) + times n ms

-- The list without one occurrence of a nonce.
abbrev pub without : ℕ → List ℕ → List ℕ
without n [] = []
without n (m ∷ ms) = if n == m then ms else m ∷ without n ms

-- How many transactions in flight hold a nonce.
abbrev pub flying : ℕ → Dict InFlightTx → ℕ
flying n [] = 0
flying n ((h, tx) ∷ d) = bit (n == tx.nonce) + flying n d

abbrev pub next_nonce : World → ℕ
next_nonce w = w.pipe.nonce_mgr.next

pub data Step : World → World → Type 0 where
  prepares :
      (w : World) (req : TxRequest) (fees : FeeCache) (now : ℕ) (tx : PreparedTx)
      → (prepare req fees now w.pipe).0 ≡ ok tx
      → next_nonce w + 1 < u64_mod
      → length w.prepared + 1 < u64_mod
      → Step w
          (record w { pipe = (prepare req fees now w.pipe).1; prepared = tx.nonce ∷ w.prepared })
  submits :
      (w : World) (hash : ℕ) (tx : PreparedTx) (now : ℕ)
      → 0 < times tx.nonce w.prepared
      → lookup hash w.pipe.in_flight ≡ none
      → Step w (record w {
        pipe = record_submission hash tx now w.pipe;
        prepared = without tx.nonce w.prepared;
      })
  resolves :
      (w : World) (hash : ℕ) (tx : InFlightTx)
      → lookup hash w.pipe.in_flight ≡ some tx
      → Step w (record w { pipe = resolve hash w.pipe; used = tx.nonce ∷ w.used })
  abandons :
      (w : World) (nonce : ℕ)
      → 0 < times nonce w.prepared
      → Step w
          (record w { pipe = abandon_prepared nonce w.pipe; prepared = without nonce w.prepared })
  loses :
      (w : World) (nonce : ℕ)
      → 0 < times nonce w.prepared
      → Step w
          (record w { pipe = mark_desynced_prepared w.pipe; prepared = without nonce w.prepared })
  flags : (w : World) → Step w (record w { pipe = mark_desynced w.pipe })
  resyncs :
      (w : World) (on_chain : ℕ)
      → can_resync w.pipe ≡ true
      → on_chain < u64_mod
      → Step w (record w { pipe = resync_nonce on_chain w.pipe; used = []; base = on_chain })

-- A step, or a call of `fail` on a transaction in flight.
pub data Move : World → World → Type 0 where
  steps : {w u : World} → Step w u → Move w u
  fails :
      (w : World) (hash : ℕ) (tx : InFlightTx)
      → lookup hash w.pipe.in_flight ≡ some tx
      → Move w (record w { pipe = fail hash w.pipe })
