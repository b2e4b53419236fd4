-- ===== src/Hft/Pipeline/Gapless.antt =====
-- No nonce is lost without a flag: what the desync flag of the pipeline promises.
use perpcity_rust_sdk.Base.{
  ℕ, ◌+◌, ◌≤◌, ◌<◌, ◌≡◌, ◌≢◌, refl, some, none, [], ◌∷◌, true, false, arith, sym, ◌∙◌,
}
use perpcity_rust_sdk.Base.Dict.{lookup}
use perpcity_rust_sdk.Base.Star.{Star, Star-keeps}
use perpcity_rust_sdk.Base.Word.{u64_mod}
use perpcity_rust_sdk.Hft.Gas.{FeeCache}
use perpcity_rust_sdk.Hft.Pipeline.{
  TxRequest, PreparedTx, InFlightTx, PipelineConfig, ok, new, prepare, record_submission, resolve,
  fail, abandon_prepared, mark_desynced_prepared, mark_desynced, resync_nonce,
}
use perpcity_rust_sdk.Hft.Pipeline.World.{
  World, start, times, without, next_nonce, Step, prepares, submits, resolves, abandons, loses,
  flags, resyncs,
}
use perpcity_rust_sdk.Hft.Pipeline.Counting.{times-without, flying-insert, flying-erase}
use mathlib.Core.Bool.{false≢true}
use perpcity_rust_sdk.Hft.Pipeline.Sound.{Step-IsSound}
use perpcity_rust_sdk.Hft.Pipeline.Sound.State.{holders, IsSound, start-IsSound}
use perpcity_rust_sdk.Hft.Pipeline.Sound.Calls.{flying_self}

-- While the flag is clear, each nonce between the last synchronisation and the counter is held by a
-- transaction or was resolved.
abbrev pub IsGapless : World → Type 0
IsGapless w =
    w.pipe.desynced ≡ false
    → (n : ℕ) → w.base ≤ n
    → n < next_nonce w
    → 1 ≤ holders n w + times n w.used

prepares-IsGapless :
    (w : World) (req : TxRequest) (fees : FeeCache) (now : ℕ) (tx : PreparedTx)
    → (prepare req fees now w.pipe).0 ≡ ok tx
    → next_nonce w + 1 < u64_mod
    → IsGapless w
    → IsGapless
        (record w { pipe = (prepare req fees now w.pipe).1; prepared = tx.nonce ∷ w.prepared })
unfolding prepare
prepares-IsGapless w req fees now tx e a g d n lo hi =
    ground (arith, λ (f : w.pipe.desynced ≡ false) (h : n < next_nonce w). g f n lo h)

submits-IsGapless :
    (w : World) (hash : ℕ) (tx : PreparedTx) (now : ℕ)
    → 0 < times tx.nonce w.prepared
    → lookup hash w.pipe.in_flight ≡ none
    → IsGapless w
    → IsGapless (record w {
      pipe = record_submission hash tx now w.pipe;
      prepared = without tx.nonce w.prepared;
    })
unfolding record_submission
submits-IsGapless w hash tx now p e g d n lo hi =
    rw (flying-insert n hash _ w.pipe.in_flight e)
      (omega (arith, g d n lo hi, times-without n tx.nonce w.prepared p))

resolves-IsGapless :
    (w : World) (hash : ℕ) (tx : InFlightTx)
    → lookup hash w.pipe.in_flight ≡ some tx
    → IsGapless w
    → IsGapless (record w { pipe = resolve hash w.pipe; used = tx.nonce ∷ w.used })
unfolding resolve
resolves-IsGapless w hash tx e g =
    rw (e, resolve)
      (λ d n lo hi. omega (arith, g d n lo hi, flying-erase n hash w.pipe.in_flight e))

abandons-IsGapless :
    (w : World) (nonce : ℕ)
    → 0 < times nonce w.prepared
    → IsSound w
    → IsGapless w
    → IsGapless
        (record w { pipe = abandon_prepared nonce w.pipe; prepared = without nonce w.prepared })
unfolding abandon_prepared
abandons-IsGapless w nonce p s g d n lo hi = ground (
  arith,
  s.in_range,
  s.below nonce,
  times-without n nonce w.prepared p,
  λ (f : w.pipe.desynced ≡ false) (h : n < next_nonce w). g f n lo h,
)

flagged-IsGapless : (w : World) → w.pipe.desynced ≡ true → IsGapless w
flagged-IsGapless w h d n lo hi = elim (false≢true (sym d ∙ h)) [ ]

resyncs-IsGapless :
    (w : World) (on_chain : ℕ)
    → IsGapless (record w { pipe = resync_nonce on_chain w.pipe; used = []; base = on_chain })
unfolding resync_nonce
resyncs-IsGapless w on_chain d n lo hi = absurd (omega arith)

Step-IsGapless : (w u : World) → Step w u → IsSound w → IsGapless w → IsGapless u
unfolding mark_desynced_prepared mark_desynced
Step-IsGapless _ _ (prepares w req fees now tx e a b) s g =
    prepares-IsGapless w req fees now tx e a g
Step-IsGapless _ _ (submits w hash tx now p e) s g = submits-IsGapless w hash tx now p e g
Step-IsGapless _ _ (resolves w hash tx e) s g = resolves-IsGapless w hash tx e g
Step-IsGapless _ _ (abandons w nonce p) s g = abandons-IsGapless w nonce p s g
Step-IsGapless _ _ (loses w nonce p) s g =
    flagged-IsGapless
      (record w { pipe = mark_desynced_prepared w.pipe; prepared = without nonce w.prepared }) refl
Step-IsGapless _ _ (flags w) s g = flagged-IsGapless (record w { pipe = mark_desynced w.pipe }) refl
Step-IsGapless _ _ (resyncs w on_chain e h) s g = resyncs-IsGapless w on_chain

abbrev Both : World → Type 0
Both w = IsSound w × IsGapless w

-- Callers keep this discipline: they submit, abandon or lose only a nonce that `prepare` gave them and
-- that they still hold, they submit under a hash that is not in flight, they resolve only transactions
-- in flight, they never call `fail`, and they resync only where `can_resync` holds, to a nonce of 64
-- bits; and a call of `prepare` brings neither the counter nor the number of prepared ones to 2^64.
-- Then after any sequence of such calls that starts at a new pipeline: while the desync flag is clear,
-- every nonce from the last synchronisation up to the counter is held by a prepared transaction or one
-- in flight, or was resolved.
pub reach-IsGapless :
    (n : ℕ) (config : PipelineConfig) {w : World}
    → n < u64_mod
    → Star Step (start n config) w
    → IsGapless w
unfolding new
reach-IsGapless n config h r =
    (Star-keeps Step Both (λ t u st b. (Step-IsSound t u st b.0, Step-IsGapless t u st b.0 b.1)) r
      (start-IsSound n config h, λ d m lo hi. absurd (omega arith))).1

-- In a sound pipeline `fail` of a transaction in flight that does not hold the latest nonce leaves
-- that nonce below the counter with no holder, and leaves the desync flag as it was.
pub fail_leaves_hole :
    (w : World) (hash : ℕ) (tx : InFlightTx)
    → IsSound w
    → lookup hash w.pipe.in_flight ≡ some tx
    → tx.nonce + 1 ≢ next_nonce w
    → let u = record w { pipe = fail hash w.pipe } in
      (holders tx.nonce u ≡ 0) × (tx.nonce < next_nonce u) × (u.pipe.desynced ≡ w.pipe.desynced)
unfolding fail
fail_leaves_hole w hash tx s e ne = (
  ground (arith, s.unique tx.nonce, flying-erase tx.nonce hash w.pipe.in_flight e),
  ground (arith, s.in_range, s.below tx.nonce, flying_self hash w.pipe.in_flight e),
  ground arith,
)
