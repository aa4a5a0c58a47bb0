-- ===== src/Concurrency.antt =====
-- src/concurrency: the spin lock that guards the queues and the poll sources.
pub mod SpinLock
