-- ===== src/Simulation.antt =====
-- The event-driven simulation of packages/libfers/src/core: its radars, the events they schedule, and
-- the loop of `SimulationEngine` that takes the events in the order of their times.
pub mod Sources
pub mod Radar
pub mod Events
pub mod World
pub mod Engine
pub mod Streams
