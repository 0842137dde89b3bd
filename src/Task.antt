-- ===== src/Task.antt =====
-- Threads, their wake-ups and the scheduling choice of crates/kernel/src/task.
pub mod Process
pub mod Types
pub mod Thread
pub mod Wake
pub mod Scheduler
pub mod Ended
pub mod History
pub mod Frame
