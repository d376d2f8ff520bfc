-- ===== src/Pipeline.antt =====
-- pipeline/ and the protocols that it is written against: one cycle of each strategy, and the decision
-- to stop the loop.
pub mod Interfaces
pub mod Stops
pub mod GridSide
pub mod GridCycle
pub mod RunnerCycle
pub mod LoopControl
pub mod Preservation
