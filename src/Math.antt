-- ===== src/Math.antt =====
-- The pricing mathematics: src/math, and the fixed-point arithmetic of src/units.
pub mod FixedPoint
pub mod Tick
pub mod Amounts
pub mod Range
pub mod Side
pub mod Liquidity
pub mod Capacity
pub mod Taker
pub mod Pricing
pub mod Maker
pub mod Swap
mod Tests
