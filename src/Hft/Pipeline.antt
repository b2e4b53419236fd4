-- ===== src/Hft/Pipeline.antt =====
-- The transaction pipeline: src/hft/pipeline.rs.
pub mod World
pub mod Counting
pub mod Sound
pub mod Gapless
pub mod Calls
mod Tests
use perpcity_rust_sdk.Base.{
  ℕ, ◌+◌, ◌-◌, ◌≡◌, ◌<◌, Option, some, none, List, [], ◌∷◌, Bool, true, false, leb, ◌==◌, ◌&&◌,
  if◌then◌else◌, length,
}
use perpcity_rust_sdk.Base.Dict.{Dict, lookup, insert, erase, values}
use perpcity_rust_sdk.Base.Word.{sat_mul64, inc64, dec64}
use perpcity_rust_sdk.Hft.Nonce
use perpcity_rust_sdk.Hft.Nonce.{NonceManager}
use perpcity_rust_sdk.Hft.Gas.{Urgency, GasFees, FeeCache, fees_for}

-- `to`, `calldata` and `value` are carried and never read here.
pub record TxRequest : Type 0 where
  pub to : ℕ
  pub calldata : List ℕ
  pub value : ℕ
  pub gas_limit : ℕ
  pub urgency : Urgency

pub record PreparedTx : Type 0 where
  pub nonce : ℕ
  pub gas_limit : ℕ
  pub gas_fees : GasFees
  pub request : TxRequest

pub record InFlightTx : Type 0 where
  pub nonce : ℕ
  pub tx_hash : ℕ
  pub request : TxRequest
  pub submitted_at_ms : ℕ
  pub gas_fees : GasFees

pub record BumpParams : Type 0 where
  pub nonce : ℕ
  pub gas_limit : ℕ
  pub new_max_priority_fee : ℕ
  pub new_max_fee : ℕ
  pub original_tx_hash : ℕ

pub record PipelineConfig : Type 0 where
  pub max_in_flight : ℕ
  pub stuck_timeout_ms : ℕ

unfoldable pub default_config : PipelineConfig
default_config = record { max_in_flight = 16; stuck_timeout_ms = 30000 }

-- The `TransactionError`s that `prepare` returns.
pub data PrepareError : Type 0 where
  too_many_in_flight : ℕ → ℕ → PrepareError
  gas_unavailable : PrepareError

pub data Prepared : Type 0 where
  ok : PreparedTx → Prepared
  err : PrepareError → Prepared

pub record TxPipeline : Type 0 where
  pub nonce_mgr : NonceManager
  pub config : PipelineConfig
  pub in_flight : Dict InFlightTx
  pub desynced : Bool
  pub preparing : ℕ

unfoldable pub new : ℕ → PipelineConfig → TxPipeline
unfolding Nonce.new
new starting_nonce config = record {
  nonce_mgr = Nonce.new starting_nonce;
  config = config;
  in_flight = [];
  desynced = false;
  preparing = 0;
}

unfoldable pub prepare : TxRequest → FeeCache → ℕ → TxPipeline → Prepared × TxPipeline
unfolding Nonce.acquire
prepare request fee_cache now_ms p =
    if leb p.config.max_in_flight (length p.in_flight)
    then (err (too_many_in_flight (length p.in_flight) p.config.max_in_flight), p)
    else elim (fees_for request.urgency now_ms fee_cache) [
      | none ↦ (err gas_unavailable, p)
      | some gas_fees ↦
          let (nonce, m) = Nonce.acquire p.nonce_mgr in
          (
            ok (record {
              nonce = nonce;
              gas_limit = request.gas_limit;
              gas_fees = gas_fees;
              request = request;
            }),
            record p { nonce_mgr = m; preparing = inc64 p.preparing },
          )
    ]

unfoldable pub record_submission : ℕ → PreparedTx → ℕ → TxPipeline → TxPipeline
unfolding Nonce.track
record_submission tx_hash prepared now_ms p =
    let tx : InFlightTx = record {
      nonce = prepared.nonce;
      tx_hash = tx_hash;
      request = prepared.request;
      submitted_at_ms = now_ms;
      gas_fees = prepared.gas_fees;
    } in
    record p {
      preparing = dec64 p.preparing;
      nonce_mgr = Nonce.track prepared.nonce tx_hash now_ms p.nonce_mgr;
      in_flight = insert tx_hash tx p.in_flight;
    }

unfoldable pub resolve : ℕ → TxPipeline → TxPipeline
unfolding Nonce.confirm
resolve tx_hash p = elim (lookup tx_hash p.in_flight) [
  | none ↦ p
  | some tx ↦ record p {
    in_flight = erase tx_hash p.in_flight;
    nonce_mgr = (Nonce.confirm tx.nonce p.nonce_mgr).1;
  }
]

-- What `release` returns is dropped here.
unfoldable pub fail : ℕ → TxPipeline → TxPipeline
unfolding Nonce.release
fail tx_hash p = elim (lookup tx_hash p.in_flight) [
  | none ↦ p
  | some tx ↦ record p {
    in_flight = erase tx_hash p.in_flight;
    nonce_mgr = (Nonce.release tx.nonce p.nonce_mgr).1;
  }
]

unfoldable pub abandon_prepared : ℕ → TxPipeline → TxPipeline
unfolding Nonce.release
abandon_prepared nonce p =
    let (rewound, m) = Nonce.release nonce p.nonce_mgr in
    record p {
      preparing = dec64 p.preparing;
      nonce_mgr = m;
      desynced = if rewound then p.desynced else true;
    }

unfoldable pub mark_desynced_prepared : TxPipeline → TxPipeline
mark_desynced_prepared p = record p { preparing = dec64 p.preparing; desynced = true }

unfoldable pub mark_desynced : TxPipeline → TxPipeline
mark_desynced p = record p { desynced = true }

unfoldable pub is_desynced : TxPipeline → Bool
is_desynced p = p.desynced

unfoldable pub can_resync : TxPipeline → Bool
can_resync p = length p.in_flight == 0 && p.preparing == 0

unfoldable pub resync_nonce : ℕ → TxPipeline → TxPipeline
unfolding Nonce.resync
resync_nonce on_chain_nonce p = record p {
  nonce_mgr = Nonce.resync on_chain_nonce p.nonce_mgr;
  desynced = false;
}

-- The `filter` and `map` of `stuck_txs`, over the values in flight.
unfoldable pub stuck_of : ℕ → ℕ → List InFlightTx → List ℕ
stuck_of timeout now_ms [] = []
stuck_of timeout now_ms (tx ∷ txs) =
    let rest = stuck_of timeout now_ms txs in
    if leb timeout (now_ms - tx.submitted_at_ms) then tx.tx_hash ∷ rest else rest

unfoldable pub stuck_txs : ℕ → TxPipeline → List ℕ
unfolding stuck_of
stuck_txs now_ms p = stuck_of p.config.stuck_timeout_ms now_ms (values p.in_flight)

unfoldable pub prepare_bump : ℕ → ℕ → TxPipeline → Option BumpParams
prepare_bump tx_hash multiplier p = elim (lookup tx_hash p.in_flight) [
  | none ↦ none
  | some tx ↦ some (record {
    nonce = tx.nonce;
    gas_limit = tx.request.gas_limit;
    new_max_priority_fee = sat_mul64 tx.gas_fees.max_priority_fee_per_gas multiplier;
    new_max_fee = sat_mul64 tx.gas_fees.max_fee_per_gas multiplier;
    original_tx_hash = tx_hash;
  })
]

unfoldable pub in_flight_count : TxPipeline → ℕ
in_flight_count p = length p.in_flight
