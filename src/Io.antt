-- ===== src/Io.antt =====
-- src/io: reads through the POSIX aio interface, and the poll source that watches them.
pub mod Request
pub mod Aio
pub mod PollSource
mod Tests
