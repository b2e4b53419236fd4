-- ===== src/Hft/Nonce.antt =====
-- The nonce manager: src/hft/nonce.rs.
use perpcity_rust_sdk.Base.{ℕ, Option, List, Bool, ◌==◌, if◌then◌else◌, true, false, [], length}
use perpcity_rust_sdk.Base.Dict.{Dict, lookup, insert, erase, values}
use perpcity_rust_sdk.Base.Word.{inc64}

pub record PendingTx : Type 0 where
  pub tx_hash : ℕ
  pub nonce : ℕ
  pub submitted_at_ms : ℕ

pub record NonceManager : Type 0 where
  pub next : ℕ
  pub pending : Dict PendingTx

unfoldable pub new : ℕ → NonceManager
new on_chain_nonce = record { next = on_chain_nonce; pending = [] }

-- `fetch_add` returns the old value and wraps.
unfoldable pub acquire : NonceManager → ℕ × NonceManager
acquire m = (m.next, record m { next = inc64 m.next })

unfoldable pub peek : NonceManager → ℕ
peek m = m.next

unfoldable pub track : ℕ → ℕ → ℕ → NonceManager → NonceManager
track nonce tx_hash submitted_at_ms m =
    let tx : PendingTx = record {
      tx_hash = tx_hash;
      nonce = nonce;
      submitted_at_ms = submitted_at_ms;
    } in
    record m { pending = insert nonce tx m.pending }

unfoldable pub confirm : ℕ → NonceManager → Option PendingTx × NonceManager
confirm nonce m = (lookup nonce m.pending, record m { pending = erase nonce m.pending })

-- `compare_exchange(nonce + 1, nonce)`: the counter is rewound only where it stands just above.
unfoldable pub release : ℕ → NonceManager → Bool × NonceManager
release nonce m =
    let p = erase nonce m.pending in
    if m.next == inc64 nonce
    then (true, record { next = nonce; pending = p })
    else (false, record m { pending = p })

unfoldable pub resync : ℕ → NonceManager → NonceManager
resync on_chain_nonce m = record { next = on_chain_nonce; pending = [] }

unfoldable pub pending_count : NonceManager → ℕ
pending_count m = length m.pending

unfoldable pub pending_snapshot : NonceManager → List PendingTx
pending_snapshot m = values m.pending
