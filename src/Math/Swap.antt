-- ===== src/Math/Swap.antt =====
-- src/math/swap.rs: the simulation of a taker's swap over a pool snapshot.
pub mod Ticks
pub mod Simulation
pub mod Accounting
pub mod Fills
pub mod Fuel
pub mod Termination
mod Tests
