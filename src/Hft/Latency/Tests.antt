-- ===== src/Hft/Latency/Tests.antt =====
-- The latency tracker at concrete samples.
use perpcity_rust_sdk.Base.{◌≡◌, arith, some, [], ◌∷◌}
use perpcity_rust_sdk.Hft.Latency.{LatencyStats, new, stats}
use perpcity_rust_sdk.Hft.Latency.Window.{HasSeen, record_all, window_holds_latest}
use perpcity_rust_sdk.Hft.Latency.Extremes.{IsLeast, IsGreatest}
use perpcity_rust_sdk.Hft.Latency.Stats.{InOrder, stats_ordered}

window_holds_latest_example : HasSeen (30 ∷ 10 ∷ 20 ∷ []) (record_all (30 ∷ 10 ∷ 20 ∷ []) new)
window_holds_latest_example = window_holds_latest (30 ∷ 10 ∷ 20 ∷ [])

stats_ordered_example :
    let t = record_all (30 ∷ 10 ∷ 20 ∷ []) new in
    (s : LatencyStats) × (stats t ≡ some s)
    × InOrder t s
    × IsLeast s.min_ns (30 ∷ 10 ∷ 20 ∷ [])
    × IsGreatest s.max_ns (30 ∷ 10 ∷ 20 ∷ [])
stats_ordered_example =
    stats_ordered 30 (10 ∷ 20 ∷ []) (omega arith, (omega arith, (omega arith, tt)))
