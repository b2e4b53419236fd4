-- ===== src/History.antt =====
-- The history of a market: src/history.
pub mod Width
pub mod Scan
pub mod Fold
pub mod Tape
pub mod Replay
