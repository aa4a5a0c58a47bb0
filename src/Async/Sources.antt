-- ===== src/Async/Sources.antt =====
-- The timers and the reads as tasks: src/async_lib/task_timer_source.cpp, src/async_lib/task_io_source.cpp
-- and include/async_lib/async_result.h. `k` is the number of the cell of a new value source.
pub mod Laws
use async_ery.Base.{ℕ, List, ℤ}
use async_ery.Scheduler.Context.{Context, empty}
use async_ery.Async.Store.{Ref, Store}
use async_ery.Async.ValueSource.{TaskValueSource, create, complete, complete_error}
use async_ery.Timing.PollSource as Timers
use async_ery.Timing.PollSource.{schedule}
use async_ery.Io.Request.{ReadRequest}
use async_ery.Io.Aio.{AioLibrary, AioResult, visit_aio_result}
use async_ery.Io.PollSource as Reads
use async_ery.Io.PollSource.{Waiting, queue_read, run_job}

pub data Error : Type 0 where
  rejected io_error : Error

-- `TaskTimerSource::after`; the job that is scheduled is known by its value source.
unfoldable pub after :
    Timers.PollSource TaskValueSource → ℤ → ℕ → Ref × Timers.PollSource TaskValueSource
after timing_poll_source duration k =
    let value_source : TaskValueSource = record { task_cell = k } in
    (create value_source, schedule timing_poll_source duration value_source)

-- `TaskIOSource::read`; the callback is known by its value source.
unfoldable pub read :
    {System : Type 0}
    → AioLibrary System
    → Reads.PollSource TaskValueSource
    → System
    → ℕ
    → ReadRequest
    → ℕ
    → Ref × Reads.PollSource TaskValueSource × System
read lib io_poll_source sys fileno request k =
    let task_source : TaskValueSource = record { task_cell = k } in
    let (io_poll_source', sys') = queue_read lib io_poll_source sys fileno request task_source in
    (create task_source, io_poll_source', sys')

module _ {V : Type 0} (pack : List V → V) where
  -- The job of a timer; `unit_value` is the value of `Unit`.
  unfoldable pub run_timer_job : V → Store V Error → Context → TaskValueSource → Store V Error
  run_timer_job unit_value s ctx value_source = complete pack s value_source ctx unit_value

  -- The callback of a read; `of_request` makes a value of the request.
  unfoldable pub read_callback :
      (ReadRequest → V) → Store V Error → TaskValueSource → AioResult ReadRequest → Store V Error
  read_callback of_request s task_source io_result =
      visit_aio_result io_result (λ buff. complete pack s task_source empty (of_request buff))
        (λ err. complete_error pack s task_source empty io_error)

  -- The job of a read that the poll source has returned.
  unfoldable pub run_read_job :
      {System : Type 0}
      → AioLibrary System
      → (ReadRequest → V)
      → Store V Error
      → System
      → Waiting TaskValueSource
      → Store V Error
  unfolding read_callback
  run_read_job lib of_request s sys w =
      let (task_source, io_result) = run_job lib sys w in
      read_callback of_request s task_source io_result
