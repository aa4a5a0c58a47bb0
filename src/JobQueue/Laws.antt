-- ===== src/JobQueue/Laws.antt =====
-- The laws of the queue that its clients use.
pub use async_ery.JobQueue.Inv.{IsValid, contents}
pub use async_ery.JobQueue.Dequeue.{dequeue_refines, dequeue-IsValid, dequeue-none}
pub use async_ery.JobQueue.Enqueue.{enqueue_lem}
pub use async_ery.JobQueue.Run.{make-IsValid}
