-- ===== src/Hft.antt =====
-- The high-frequency layer: src/hft.
pub mod Nonce
pub mod Gas
pub mod Pipeline
pub mod StateCache
pub mod Positions
pub mod Latency
