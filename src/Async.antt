-- ===== src/Async.antt =====
-- include/async_lib and src/async_lib: tasks, built on cells and the scheduler.
pub mod Program
pub mod Store
pub mod Task
pub mod ValueSource
pub mod Run
pub mod Sources
pub mod Factory
pub mod Sound
pub mod Later
pub mod Owed
pub mod Due
pub mod Tokens
pub mod Laws
pub mod Direct
mod Tests
