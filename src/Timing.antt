-- ===== src/Timing.antt =====
-- src/timing: the two timing wheels and the poll source of the timers.
pub mod Wheel
pub mod Hierarchical
pub mod PollSource
