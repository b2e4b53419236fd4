-- ===== src/History/Scan/Blocks.antt =====
-- The logs of a chain, and the servers that answer with them.
use perpcity_rust_sdk.Base.{
  ℕ, zero, suc, ◌+◌, ◌-◌, ◌<◌, ◌≡◌, ◌⊎◌, sym, ap, ◌∙◌, List, [], ◌++◌, Bool, arith,
}
use mathlib.Core.List.{append_assoc}
use perpcity_rust_sdk.Transport.Fault.{ErrorPayload, TransportError}
use perpcity_rust_sdk.History.Scan.{
  Answer, logs_of, failed, range, refused, unanswered, classify, ScanError, logs_rejected,
  no_answer, invalid_block_range,
}

module _ {Log : Type 0} (chain : ℕ → List Log) where
  -- The logs of `n` blocks, in chain order.
  unfoldable pub blocks : ℕ → ℕ → List Log
  blocks a zero = []
  blocks a (suc n) = chain a ++ blocks (a + 1) n

  pub blocks-add : (a m n k b : ℕ) → k ≡ m + n → b ≡ a + m → blocks a k ≡ blocks a m ++ blocks b n
  unfolding blocks
  blocks-add a zero n k b hk hb =
      let ek : k ≡ n = omega arith in
      let eb : a ≡ b = omega arith in ap (blocks a) ek ∙ ap (λ x. blocks x n) eb
  blocks-add a (suc m) n zero b hk hb = absurd (omega arith)
  blocks-add a (suc m) n (suc k) b hk hb =
      ap (λ x. chain a ++ x) (blocks-add (a + 1) m n k b (omega arith) (omega arith))
      ∙ sym (append_assoc (chain a) (blocks (a + 1) m) (blocks b n))

  -- A server that answers an accepted request with the logs of its blocks.
  abbrev pub IsHonest : (ℕ → ℕ → ℕ → Answer Log × ℕ) → Type 0
  IsHonest ask = (k a b : ℕ) (l : List Log) → (ask k a b).0 ≡ logs_of l → l ≡ blocks a (b - a + 1)

module _ {Log : Type 0} (is_retry_err : ErrorPayload → Bool)
    (ask : ℕ → ℕ → ℕ → Answer Log × ℕ) where
  -- An error of a scan that the server caused: it names the request that failed and its answer. One
  -- block was rejected, or the server refuses to answer, or nobody answered.
  abbrev pub Blames : ScanError → Type 0
  Blames (logs_rejected a b e) =
      (k : ℕ) × ((ask k a b).0 ≡ failed e)
      × (((a ≡ b) × (classify is_retry_err e ≡ range)) ⊎ (classify is_retry_err e ≡ refused))
  Blames (no_answer e) =
      (k a b : ℕ) × ((ask k a b).0 ≡ failed e) × (classify is_retry_err e ≡ unanswered)
  Blames (invalid_block_range a b) = ⊥

  -- A server that rejects nothing but ranges of several blocks.
  abbrev pub IsServing : Type 0
  IsServing =
      (k a b : ℕ) (e : TransportError)
      → (ask k a b).0 ≡ failed e
      → (a < b) × (classify is_retry_err e ≡ range)
