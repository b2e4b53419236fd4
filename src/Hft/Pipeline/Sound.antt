-- ===== src/Hft/Pipeline/Sound.antt =====
-- What holds of the pipeline and its callers after any sequence of calls.
pub mod State
pub mod Calls
use perpcity_rust_sdk.Base.{
  ℕ, ◌+◌, ◌≤◌, ◌<◌, ◌≡◌, refl, some, none, List, [], ◌∷◌, true, arith, ◌==◌, length, if◌then◌else◌,
}
use perpcity_rust_sdk.Base.Dict.{
  Dict, lookup, insert, erase, IsMap, lookup-insert, lookup-erase, insert-IsMap, erase-IsMap,
}
use perpcity_rust_sdk.Base.Star.{Star, Star-keeps}
use perpcity_rust_sdk.Base.Word.{u64_mod}
use perpcity_rust_sdk.Hft.Gas.{FeeCache}
use perpcity_rust_sdk.Hft.Nonce.{PendingTx}
use perpcity_rust_sdk.Hft.Pipeline.{
  TxRequest, PreparedTx, InFlightTx, PipelineConfig, ok, new, prepare, record_submission, resolve,
  fail, abandon_prepared, mark_desynced_prepared, mark_desynced, can_resync, resync_nonce,
}
use perpcity_rust_sdk.Hft.Pipeline.World.{
  World, start, times, without, flying, next_nonce, Step, Move, prepares, submits, resolves,
  abandons, loses, flags, resyncs, steps, fails,
}
use perpcity_rust_sdk.Hft.Pipeline.Counting.{
  times-without, length-without, flying-insert, flying-erase,
}
use perpcity_rust_sdk.Hft.Pipeline.Sound.State.{IsSound, start-IsSound}
use perpcity_rust_sdk.Hft.Pipeline.Sound.Calls.{
  prepares-IsSound, submits-IsSound, resolves-IsSound, fails-IsSound, abandons-IsSound,
  loses-IsSound, flags-IsSound, resyncs-IsSound,
}

pub Step-IsSound : (w u : World) → Step w u → IsSound w → IsSound u
Step-IsSound _ _ (prepares w req fees now tx e a b) s = prepares-IsSound w req fees now tx e a b s
Step-IsSound _ _ (submits w hash tx now p e) s = submits-IsSound w hash tx now p e s
Step-IsSound _ _ (resolves w hash tx e) s = resolves-IsSound w hash tx e s
Step-IsSound _ _ (abandons w nonce p) s = abandons-IsSound w nonce p s
Step-IsSound _ _ (loses w nonce p) s = loses-IsSound w nonce p s
Step-IsSound _ _ (flags w) s = flags-IsSound w s
Step-IsSound _ _ (resyncs w on_chain e h) s = resyncs-IsSound w on_chain e h s

Move-IsSound : (w u : World) → Move w u → IsSound w → IsSound u
Move-IsSound w u (steps st) s = Step-IsSound w u st s
Move-IsSound _ _ (fails w hash tx e) s = fails-IsSound w hash tx e s

-- Callers keep this discipline: they submit, abandon or lose only a nonce that `prepare` gave them and
-- that they still hold, they submit under a hash that is not in flight, they resolve and fail only
-- transactions in flight, and they resync only where `can_resync` holds, to a nonce of 64 bits; and a
-- call of `prepare` brings neither the counter nor the number of prepared ones to 2^64. Then after any
-- sequence of such calls that starts at a new pipeline, also of `fail`: no two transactions that are
-- prepared or in flight hold one nonce, each such nonce stands below the counter, the pending map of
-- the nonce manager holds exactly the nonces in flight, and `preparing` counts the prepared ones.
pub reach-IsSound :
    (n : ℕ) (config : PipelineConfig) {w : World}
    → n < u64_mod
    → Star Move (start n config) w
    → IsSound w
reach-IsSound n config h r = Star-keeps Move IsSound Move-IsSound r (start-IsSound n config h)
