-- ===== src/Scheduler.antt =====
-- app/scheduler.py: the life of a run. One call is one step on the tables that its session sees.
pub mod Written
pub mod Session
pub mod Operations
pub mod Rows
pub mod Claim
pub mod Progress
pub mod Tick
pub mod Again
pub mod Deps
pub mod Steps
pub mod Safety
pub mod Cancel
pub mod Report
pub mod Exhaust
pub mod Commit
pub mod Announced
pub mod Turns
pub mod Potential
pub mod Driven
pub mod Clean
pub mod Done
pub mod Kept
