-- ===== src/Examples.antt =====
-- Runs of the model, and the theorems at concrete inputs.
mod Managers
mod Graphs
mod Schedules
mod Setups
mod Pools
mod Requests
mod Buffers
mod Sums
mod Customs
mod Thread
pub mod Reductions
mod Plans
