-- ===== src/Hft/Pipeline/Calls.antt =====
-- What single calls of the pipeline return.
use perpcity_rust_sdk.Base.{ℕ, ◌≡◌, some, false, ◌==◌, arith}
use perpcity_rust_sdk.Base.Dict.{lookup-insert}
use perpcity_rust_sdk.Base.Word.{sat_mul64}
use perpcity_rust_sdk.Hft.Pipeline.{
  TxPipeline, PreparedTx, InFlightTx, record_submission, prepare_bump,
}

-- A submitted transaction can be bumped by its hash: with its own nonce and gas limit and both fees
-- multiplied, saturating. Bumping any other hash finds what it found before.
pub prepare_bump-record_submission :
    (hash other now multiplier : ℕ) (tx : PreparedTx) (p : TxPipeline)
    → (prepare_bump hash multiplier (record_submission hash tx now p)
        ≡ some (record {
          nonce = tx.nonce;
          gas_limit = tx.request.gas_limit;
          new_max_priority_fee = sat_mul64 tx.gas_fees.max_priority_fee_per_gas multiplier;
          new_max_fee = sat_mul64 tx.gas_fees.max_fee_per_gas multiplier;
          original_tx_hash = hash;
        }))
      × ((other == hash) ≡ false
          → prepare_bump other multiplier (record_submission hash tx now p)
            ≡ prepare_bump other multiplier p)
unfolding prepare_bump record_submission
prepare_bump-record_submission hash other now multiplier tx p =
    let t : InFlightTx = record {
      nonce = tx.nonce;
      tx_hash = hash;
      request = tx.request;
      submitted_at_ms = now;
      gas_fees = tx.gas_fees;
    } in
    (
      ground (arith, lookup-insert hash hash t p.in_flight),
      λ h. ground (arith, lookup-insert other hash t p.in_flight),
    )
