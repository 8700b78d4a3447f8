-- ===== src/Examples.antt =====
-- Concrete worlds and inputs, at which the theorems are applied.
mod Loops
pub mod Producer
pub mod Batch
pub mod Tasks
pub mod Tables
pub mod Assembly
pub mod Statements
pub mod Worker
pub mod Deployed
pub mod Runs
pub mod Accepted
mod Delivered
mod Cache
pub mod Counters
pub mod Poisoned
pub mod Demonstrated
mod Programs
pub mod Cursed
pub mod Broker
