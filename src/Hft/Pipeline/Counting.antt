-- ===== src/Hft/Pipeline/Counting.antt =====
-- How the counts of nonces follow the lists and dictionaries of the pipeline.
use perpcity_rust_sdk.Base.{ℕ, suc, ◌+◌, ◌<◌, ◌≡◌, some, none, List, [], ◌∷◌, arith, ◌==◌, length}
use perpcity_rust_sdk.Base.Dict.{Dict, lookup, insert, erase}
use perpcity_rust_sdk.Hft.Pipeline.{InFlightTx}
use perpcity_rust_sdk.Hft.Pipeline.World.{bit, times, without, flying}

pub times-without :
    (n m : ℕ) (ms : List ℕ) → 0 < times m ms → times n (without m ms) + bit (n == m) ≡ times n ms
times-without n m [] h = absurd (omega arith)
times-without n m (k ∷ ms) h = ground (arith, times-without n m ms)

pub length-without :
    (m : ℕ) (ms : List ℕ) → 0 < times m ms → suc (length (without m ms)) ≡ length ms
length-without m [] h = absurd (omega arith)
length-without m (k ∷ ms) h = ground (arith, length-without m ms)

pub flying-insert :
    (n h : ℕ) (tx : InFlightTx) (d : Dict InFlightTx)
    → lookup h d ≡ none
    → flying n (insert h tx d) ≡ flying n d + bit (n == tx.nonce)
flying-insert n h tx [] e = ground arith
flying-insert n h tx (x ∷ d) e = ground (arith, flying-insert n h tx d)

pub flying-erase :
    (n h : ℕ) {tx : InFlightTx} (d : Dict InFlightTx)
    → lookup h d ≡ some tx
    → flying n (erase h d) + bit (n == tx.nonce) ≡ flying n d
flying-erase n h [] e = cc
flying-erase n h {tx} (x ∷ d) e = ground (arith, flying-erase n h {tx = tx} d)
