-- ===== src/Scheduler.antt =====
-- src/scheduler: the workers, their pool and the poll loop. The queue of a worker is JobQueue.
pub mod Context
pub mod Worker
pub mod Pool
pub mod Poll
pub mod System
