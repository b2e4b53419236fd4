-- ===== src/Transport.antt =====
-- The RPC transport: src/transport.
pub mod Fault
pub mod Health
pub mod Pool
