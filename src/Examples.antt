-- ===== src/Examples.antt =====
-- The theorems at concrete inputs, and runs of the definitions.
pub mod Fixed
pub mod Queues
pub mod Data
pub mod Wire
pub mod Streams
pub mod Pacing
pub mod Sinks
pub mod Schedules
pub mod Engines
pub mod Receivers
pub mod Projections
pub mod Pools
pub mod Ids
pub mod Resamplers
pub mod Tables
