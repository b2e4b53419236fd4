-- ===== src/Units.antt =====
-- The quantities a caller names and the arithmetic on them: src/units.
pub mod Amount
pub mod Share
mod Tests
