-- ===== src/Async/Factory.antt =====
-- include/async_lib/task_factory.h. The scheduler is the world of the tasks, whose jobs run in any
-- order; `per_ms` and `now` are the unit and the time of the clock.
use async_ery.Base.{ℕ, suc, List, [], ℤ}
use async_ery.Async.Store.{Ref}
use async_ery.Async.Task.{World, initial}
use async_ery.Async.Task
use async_ery.Async.ValueSource.{TaskValueSource}
use async_ery.Async.Sources.{Error}
use async_ery.Async.Sources
use async_ery.Timing.PollSource as Timers
use async_ery.Io.Request.{ReadRequest}
use async_ery.Io.Aio.{AioLibrary}
use async_ery.Io.PollSource as Reads

-- `next_source` is the number of the cell of the next value source.
pub record TaskFactory (V : Type 0) : Type 0 where
  pub timing_poll_source : Timers.PollSource TaskValueSource
  pub io_poll_source : Reads.PollSource TaskValueSource
  pub scheduler : World V Error
  pub next_source : ℕ

module _ {V : Type 0} where
  unfoldable pub make : ℕ → ℕ → TaskFactory V
  make per_ms now = record {
    timing_poll_source = Timers.make TaskValueSource per_ms now;
    io_poll_source = record { in_flight_requests = [] };
    scheduler = initial;
    next_source = 0;
  }

  unfoldable pub value_source : TaskFactory V → TaskValueSource × TaskFactory V
  value_source f =
      (record { task_cell = f.next_source }, record f { next_source = suc f.next_source })

  -- `timer_source().after(duration)`
  unfoldable pub after : TaskFactory V → ℤ → Ref × TaskFactory V
  after f duration =
      let (task, timers) = Sources.after f.timing_poll_source duration f.next_source in
      (task, record f { timing_poll_source = timers; next_source = suc f.next_source })

  -- `io_source().read(file, request)`
  unfoldable pub read :
      {System : Type 0}
      → AioLibrary System
      → TaskFactory V
      → System
      → ℕ
      → ReadRequest
      → Ref × TaskFactory V × System
  read lib f sys fileno request =
      let (task, reads, sys') =
        Sources.read lib f.io_poll_source sys fileno request f.next_source in
      (task, record f { io_poll_source = reads; next_source = suc f.next_source }, sys')

  unfoldable pub create : TaskFactory V → V → Ref × TaskFactory V
  create f v = let (task, w) = Task.create f.scheduler v in (task, record f { scheduler = w })

  module _ (blank : V) (pack : List V → V) where
    unfoldable pub when_any : TaskFactory V → List Ref → Ref × TaskFactory V
    when_any f tasks =
        let (task, w) = Task.when_any blank pack f.scheduler tasks in
        (task, record f { scheduler = w })

    unfoldable pub when_all : TaskFactory V → List Ref → Ref × TaskFactory V
    when_all f tasks =
        let (task, w) = Task.when_all blank pack f.scheduler tasks in
        (task, record f { scheduler = w })
