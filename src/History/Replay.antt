-- ===== src/History/Replay.antt =====
-- The replay of a market from its tape: src/history/replay.
pub mod Position
pub mod Market
mod Tests
