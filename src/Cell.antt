-- ===== src/Cell.antt =====
-- src/cell: the cells that hold the results of tasks.
pub mod Result
pub mod WriteOnce
pub mod TrackingOnce
pub mod WhenAll
pub mod WhenAny
mod Tests
