-- ===== src/Tests.antt =====
-- Concrete inputs of the modelled code, and the theorems applied to them.
pub mod Samples
pub mod Statuses
pub mod Backoffs
pub mod Workers
pub mod Snapshots
pub mod Schedules
pub mod Histories
pub mod Selections
pub mod Pools
pub mod Sets
pub mod Crons
pub mod Stamps
