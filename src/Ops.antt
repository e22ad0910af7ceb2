-- ===== src/Ops.antt =====
-- ops.py: threads, runs and their time to live.
pub mod State
pub mod Ttl
pub mod Threads
pub mod Sweep
pub mod Runs
pub mod Status
pub mod Prune
pub mod Rows
pub mod Creation
pub mod Cancel
pub mod Search
