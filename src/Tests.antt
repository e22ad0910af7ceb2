-- ===== src/Tests.antt =====
-- The theorems at concrete inputs.
mod Sizes
mod Filters
pub mod Threads
mod Sweep
mod Runs
mod Closing
mod Creation
mod Cancel
mod Search
mod Store
mod Saver
mod Stream
