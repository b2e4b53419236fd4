-- ===== src/Hft/Pipeline/Tests.antt =====
-- Concrete runs of the pipeline and the fee cache.
use perpcity_rust_sdk.Base.{ℕ, ◌<◌, ◌≡◌, refl, some, [], ◌∷◌, true, arith}
use perpcity_rust_sdk.Base.Dict.{lookup}
use perpcity_rust_sdk.Base.Star.{Star, here, next}
use perpcity_rust_sdk.Hft.Gas.{
  Urgency, low, normal, high, critical, GasFees, FeeCache, update, fees_for, get,
}
use perpcity_rust_sdk.Hft.Gas
use perpcity_rust_sdk.Hft.Pipeline.{
  TxPipeline, TxRequest, PreparedTx, InFlightTx, PipelineConfig, ok, err, too_many_in_flight,
  gas_unavailable, default_config, prepare, record_submission, prepare_bump, fail, can_resync,
  resolve, resync_nonce, mark_desynced, abandon_prepared,
}
use perpcity_rust_sdk.Hft.Pipeline
use perpcity_rust_sdk.Hft.Nonce
use perpcity_rust_sdk.Hft.Pipeline.World.{
  World, start, Step, prepares, submits, Move, steps, next_nonce,
}
use perpcity_rust_sdk.Hft.Pipeline.Sound.{reach-IsSound}
use perpcity_rust_sdk.Hft.Pipeline.Gapless.{IsGapless, reach-IsGapless, fail_leaves_hole}
use perpcity_rust_sdk.Hft.Pipeline.Sound.State.{IsSound, holders}

abbrev config : PipelineConfig
config = record { max_in_flight = 16; stuck_timeout_ms = 30000 }

abbrev fees : GasFees
fees = record {
  base_fee = 100;
  max_priority_fee_per_gas = 2;
  max_fee_per_gas = 202;
  updated_at_ms = 0;
}

abbrev cache : FeeCache
cache = record { current = some fees; ttl_ms = 1000; default_priority_fee = 2 }

abbrev request : TxRequest
request = record { to = 9; calldata = 1 ∷ []; value = 0; gas_limit = 700000; urgency = normal }

abbrev tx_of : ℕ → PreparedTx
tx_of n = record { nonce = n; gas_limit = 700000; gas_fees = fees; request = request }

-- Two transactions are prepared, the first of them is submitted.
abbrev one : World
one = record (start 7 config) {
  pipe = (prepare request cache 5 (Pipeline.new 7 config)).1;
  prepared = 7 ∷ [];
}

abbrev two : World
two = record one { pipe = (prepare request cache 6 one.pipe).1; prepared = 8 ∷ 7 ∷ [] }

abbrev three : World
three = record two { pipe = record_submission 77 (tx_of 7) 8 two.pipe; prepared = 8 ∷ [] }

first_prepares : Step (start 7 config) one
unfolding prepare Pipeline.new Nonce.new Nonce.acquire fees_for get Gas.scale
first_prepares =
    prepares (start 7 config) request cache 5 (tx_of 7) refl (omega arith) (omega arith)

second_prepares : Step one two
unfolding prepare Pipeline.new Nonce.new Nonce.acquire fees_for get Gas.scale
second_prepares = prepares one request cache 6 (tx_of 8) refl (omega arith) (omega arith)

first_submits : Step two three
unfolding prepare Pipeline.new Nonce.new Nonce.acquire fees_for get Gas.scale
first_submits = submits two 77 (tx_of 7) 8 (omega arith) refl

abbrev run : Star Step (start 7 config) three
run = next (next (next here first_prepares) second_prepares) first_submits

reach-IsGapless_example : IsGapless three
reach-IsGapless_example = reach-IsGapless 7 config (omega arith) run

abbrev moves : Star Move (start 7 config) three
moves = next (next (next here (steps first_prepares)) (steps second_prepares)) (steps first_submits)

reach-IsSound_example : IsSound three
reach-IsSound_example = reach-IsSound 7 config (omega arith) moves

abbrev flown : InFlightTx
flown = record { nonce = 7; tx_hash = 77; request = request; submitted_at_ms = 8; gas_fees = fees }

three-flies : lookup 77 three.pipe.in_flight ≡ some flown
unfolding record_submission prepare Pipeline.new fees_for get Gas.scale
three-flies = refl

three-next : next_nonce three ≡ 9
unfolding record_submission Nonce.track prepare Pipeline.new Nonce.new Nonce.acquire fees_for get
    Gas.scale
three-next = refl

fail_leaves_hole_example :
    let u = record three { pipe = fail 77 three.pipe } in
    (holders 7 u ≡ 0) × (7 < next_nonce u) × (u.pipe.desynced ≡ three.pipe.desynced)
fail_leaves_hole_example =
    fail_leaves_hole three 77 flown (reach-IsSound 7 config (omega arith) moves) three-flies
      (omega (arith, three-next))

-- The first transaction resolves, the second is abandoned, and the pipeline may resync.
abbrev idle : World
idle = start 7 config

idle-resyncs : can_resync idle.pipe ≡ true
unfolding can_resync Pipeline.new
idle-resyncs = refl

abbrev full : TxPipeline
full = record two.pipe { config = record { max_in_flight = 0; stuck_timeout_ms = 30000 } }

abbrev fast : GasFees
fast = record {
  base_fee = 100;
  max_priority_fee_per_gas = 10;
  max_fee_per_gas = 410;
  updated_at_ms = 0;
}

normal_fees : fees_for normal 10 cache ≡ some fees
unfolding fees_for get Gas.scale
normal_fees = refl

critical_fees : fees_for critical 10 cache ≡ some fast
unfolding fees_for get Gas.scale
critical_fees = refl

-- A transaction in flight is stuck at the timeout, not before.
stuck_run :
    (Pipeline.stuck_txs 30007 three.pipe ≡ []) × (Pipeline.stuck_txs 30008 three.pipe ≡ 77 ∷ [])
unfolding Pipeline.stuck_txs record_submission prepare Pipeline.new Nonce.new Nonce.acquire fees_for
    get Gas.scale
stuck_run = (refl, refl)
