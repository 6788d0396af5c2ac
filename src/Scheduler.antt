-- ===== src/Scheduler.antt =====
-- x
pub mod Gate
pub mod Slots
pub mod Panic
pub mod State
pub mod Sound
pub mod Assign
pub mod Handlers
pub mod Loop
pub mod Keeps
pub mod Always
pub mod Streams
pub mod Slices
pub mod Stale
