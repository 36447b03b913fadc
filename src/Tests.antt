-- ===== src/Tests.antt =====
-- Runs of the model of rollup1 at concrete inputs.
pub mod Toy
pub mod Manager
pub mod Fullnode
pub mod Proofer
pub mod Planner
pub mod Polling
pub mod ToyBuilder
pub mod Builder
pub mod Dashboard
pub mod Relays
