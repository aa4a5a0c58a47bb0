-- ===== src/Lib.antt =====
-- Async-ery, a C++ library of tasks that run on a pool of worker threads.
--
-- A worker takes jobs from its own queue, from the global queue of the pool, or from another worker
-- (src/scheduler). One more thread polls the poll sources, when a timing wheel says that they are due,
-- and queues the jobs that they return. The poll sources are the timers (src/timing) and the reads
-- from files (src/io). The results of tasks live in cells (src/cell), which queue their callbacks on
-- the scheduler, and a task is the reference to a cell (include/async_lib). A spin lock
-- (src/concurrency) guards the queues and the poll sources.
--
-- Which file models which part:
--   JobQueue: JobQueue of src/scheduler/src/job_queue.cpp. Fifo is its specification, Inv says when a
--     ring is well formed and what it holds, Put, Dequeue, Resize and Enqueue treat the operations, and
--     Run the histories of calls.
--   Concurrency.SpinLock: src/concurrency/src/spinlock.cpp, one step for each atomic access.
--   Timing.Wheel: TimingWheel of src/timing/include/timing/structures/timing_wheel.h. Agenda is its
--     specification, a list of timers for each number of ticks to come.
--   Timing.Hierarchical: HierarchicalTimingWheel, of timing_wheel_hierarchical.h beside it.
--   Timing.PollSource: src/timing/src/timing_poll_source.cpp. History has the histories of its calls.
--   Scheduler.Context, Worker and Pool: Context, JobWorker and WorkerPool of src/scheduler. `Pool.work`
--     is a round of the thread that `JobWorker::start` starts. Pool.Start is about the constructor,
--     Pool.Submit about queueing, Pool.Laws and Pool.Busy about a round.
--   Scheduler.Poll: `Scheduler::begin_poll` of src/scheduler/src/scheduler.cpp.
--   Scheduler.System: the class Scheduler of the same file: the pool and the polling thread together.
--   Io.Request, Aio and PollSource: src/io/src/io_request.cpp, aio.cpp and io_poll_source.cpp.
--   Cell.Result, WriteOnce, TrackingOnce, WhenAll and WhenAny: the headers of those names in
--     src/cell/include/cell. The files named Held say what holds of callbacks that wait and are called.
--   Async: include/async_lib and src/async_lib. Store is the heap of all cells with the queue of jobs
--     and a log of the calls of the client's callbacks; Task is include/async_lib/task.h; ValueSource,
--     Sources and Factory are the value source, the timer and IO sources, and task_factory.h. Program
--     has the expressions that a client builds with the library and the results that they may have,
--     Run the histories of calls, and Direct code in direct style to compare with. Sound says when a
--     store is sound and has the lemmas on each step; Owed does so for the callbacks that a store owes a
--     call, Later for what a cell becomes, Tokens
--     for where the reports to a joined cell are and what it has counted, and Due for why a cell has no value yet.
--   Base: shared names, lists and numbers.
--
-- Conventions. An operation has the name of the function it models, and takes and returns the state
-- of its object. Where a mutex or the spin lock makes an operation atomic, a call is one step;
-- SpinLock has finer steps. A `size_t` is a natural number whose arithmetic
-- is reduced modulo `2 ^ 64`; durations are integers. The clock, the random device and the contents of
-- fresh memory are arguments of the operations that read them. `blank` is a default-constructed job,
-- and `moved` is what a move leaves behind, which the language does not say: any function will do.
-- `max_size` is the length beyond which std::vector::resize throws, and is below `2 ^ 63`; `none`, or
-- `false` for a list of jobs, stands for that exception. The aio functions of the C library and its
-- error numbers are the fields of Io.Aio.AioLibrary.
--
-- In Async all tasks have values of one type `V`, in which `pack` puts the vector of a `when_all`, and
-- a callback is the closure that the source registers, by what it captures. A job runs to its end
-- before the next one starts, but jobs run in any order and in the context of any worker. A function
-- that is given to `bind` builds its task from value sources and calls of the library. `made` of a
-- world is a note, for the statements, of the expression that a cell stands for, and a report to a
-- `when_any` notes its place; the code looks at neither.
--
-- Bounds and fuel. `JobQueue.reposition` takes the old length of the ring as its fuel, and a ring
-- holds fewer jobs than it has slots. `load_timers_from_wheel` takes the number of wheels, and each
-- call goes one wheel up. A call on a tracking cell goes on to the cell it tracks, which is that of a
-- source or was allocated later; `read` takes fuel for that, and `await` one more than the cells there
-- are. Other loops are structural. A weight `p` in a statement about timers, jobs or poll sources gives
-- each of them a number, and stands for all such functions: with 1 for one of them and 0 for the others
-- it counts that one.
--
-- Not modelled: jobs of tasks that run at the same time, so a cell's operations in Async are taken one
-- by one; how the constructors start threads, and stopping a worker; the
-- size check of `dequeue` before the lock against a concurrent call; `error_to_string`, which only names
-- an error; the examples and the build.
pub mod Base
pub mod JobQueue
pub mod Timing
pub mod Scheduler
pub mod Concurrency
pub mod Io
pub mod Cell
pub mod Async
