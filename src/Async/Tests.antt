-- ===== src/Async/Tests.antt =====
-- Tasks at concrete inputs; a value is a number, the vector of a `when_all` is packed as its sum, and
-- source `k` is resolved with `k + 3`.
use async_ery.Base.{
  ℕ, ◌+◌, ◌*◌, ◌≡◌, ◌<◌, refl, none, some, List, [], ◌∷◌, total, All, Mem, pos, arith,
}
use async_ery.Cell.Result.{Result, value, error}
use async_ery.Cell.WriteOnce
use async_ery.Cell.TrackingOnce
use async_ery.Cell.WhenAny
use async_ery.Cell.WhenAll
use async_ery.Scheduler.Context.{empty, of_worker}
use async_ery.Async.Program.{Prog, Means}
use async_ery.Async.Store.{Ref, source, cell, read, Store, once, user}
use async_ery.Async.Store
use async_ery.Async.ValueSource.{TaskValueSource, resolve}
use async_ery.Async.Sources.{Error, run_read_job}
use async_ery.Async.Sources.Laws.{Outcome, Resolved, read_task_lem}
use async_ery.Io.Aio.{AioLibrary, is_completed}
use async_ery.Io.PollSource.{Waiting}
use async_ery.Async.Task.{
  World, initial, program_of, create, map, bind, when_any, when_all, await, block, run_work, build,
}
use async_ery.Async.Run.{
  Call, creates, maps, binds, when_anys, when_alls, awaits, completes, runs, run,
}
use async_ery.Async.Sound.Jobs.{AllValid}
use async_ery.Async.Laws.{run-All, run-Served, run-Mem, awaits-Mem}
use async_ery.Async.Owed.Jobs.{Served}
use async_ery.Async.Due.{IsTask}
use async_ery.Async.Due.Histories.{AllUseTasks}
use async_ery.Async.Due.Live.{Live}

abbrev sum : List ℕ → ℕ
sum = total (λ n. n)

-- A task of 5, doubled, then bound to a function that adds the value of source 0.
abbrev add_source : ℕ → Prog ℕ
add_source n = Prog.map (Prog.source 0) (λ m. n + m)

abbrev doubled : Prog ℕ
doubled = Prog.map (Prog.create 5) (λ n. 2 * n)

abbrev calls : List (Call ℕ ℕ)
calls =
    creates 5
    ∷ maps (cell 0) (λ n. 2 * n)
    ∷ binds (cell 1) add_source
    ∷ awaits (cell 2) 7
    ∷ runs 0 (of_worker 0)
    ∷ runs 0 (of_worker 1)
    ∷ runs 0 (of_worker 1)
    ∷ completes 0 empty (value 3)
    ∷ runs 0 empty
    ∷ runs 0 empty
    ∷ []

abbrev world : World ℕ ℕ
world = run 0 sum initial calls

abbrev Src : ℕ → Result ℕ ℕ → Type 0
Src k r = r ≡ value (k + 3)

abbrev User : ℕ → Result ℕ ℕ → Type 0
User n r = Means 0 sum Src (Prog.bind doubled add_source) r

bind_run :
    (read sum 5 world.store (cell 2) ≡ some (value 13))
    × (world.store.log ≡ (7, value 13) ∷ [])
    × (world.store.jobs ≡ [])
    × 2 < world.next
    × (block 0 sum world (cell 2) ≡ some (value 13))
unfolding block run resolve Store.write await Store.await Store.track bind map create run_work build
    read WriteOnce.await WriteOnce.write_result_to_value TrackingOnce.track TrackingOnce.hold
    WriteOnce.read
bind_run = (refl, refl, refl, omega arith, refl)

-- Two tasks of a source; source 1 fails, and source 0 has the value 3 later.
abbrev joins : List (Call ℕ ℕ)
joins =
    when_anys (source 1 ∷ source 0 ∷ [])
    ∷ when_alls (source 0 ∷ source 2 ∷ [])
    ∷ when_alls (source 0 ∷ source 1 ∷ [])
    ∷ binds (source 1) add_source
    ∷ completes 1 empty (error 9)
    ∷ completes 2 empty (value 5)
    ∷ completes 0 empty (value 3)
    ∷ runs 0 empty
    ∷ runs 0 empty
    ∷ runs 0 empty
    ∷ runs 0 empty
    ∷ runs 0 empty
    ∷ runs 0 empty
    ∷ runs 0 empty
    ∷ []

abbrev joined : World ℕ ℕ
joined = run 0 sum initial joins

joins_run :
    (read sum 1 joined.store (cell 0) ≡ some (value 3))
    × (read sum 1 joined.store (cell 1) ≡ some (value 8))
    × (read sum 1 joined.store (cell 2) ≡ some (error 9))
    × (read sum 2 joined.store (cell 3) ≡ some (error 9))
unfolding run resolve Store.write await Store.await Store.track Store.report_any Store.report_all
    bind map create when_any when_all run_work build read WriteOnce.await
    WriteOnce.write_result_to_value TrackingOnce.track TrackingOnce.hold WriteOnce.read
    WhenAny.on_result WhenAll.on_result WhenAny.make WhenAll.make WriteOnce.write
    WriteOnce.write_error
joins_run = (refl, refl, refl, refl)

world_valid : AllValid 0 sum Src User initial calls
unfolding run resolve Store.write await Store.await Store.track bind map create run_work build
    WriteOnce.await WriteOnce.write_result_to_value TrackingOnce.track TrackingOnce.hold Means
world_valid = (
  tt,
  (omega arith, (omega arith, ((omega arith, λ r m. m), (tt, (tt, (tt, (refl, (tt, (tt, tt))))))))),
)

run-All_example : All (λ e. User e.0 e.1) world.store.log
run-All_example = run-All 0 sum Src User calls world_valid

abbrev before : List (Call ℕ ℕ)
before = creates 5 ∷ maps (cell 0) (λ n. 2 * n) ∷ binds (cell 1) add_source ∷ []

abbrev after : List (Call ℕ ℕ)
after =
    runs 0 (of_worker 0)
    ∷ runs 0 (of_worker 1)
    ∷ runs 0 (of_worker 1)
    ∷ completes 0 empty (value 3)
    ∷ runs 0 empty
    ∷ runs 0 empty
    ∷ []

run-Served_example : Served 0 sum Src User world (cell 2) 7
run-Served_example = run-Served 0 sum Src User before after (cell 2) 7 world_valid

run-Mem_example : (q : Result ℕ ℕ) × Mem (7, q) world.store.log × User 7 q
run-Mem_example =
    run-Mem 0 sum Src User before after (cell 2) 7 5 (value 13) world_valid bind_run.2 bind_run.0

world_settles :
    AllUseTasks 0 sum Src User initial calls
    × IsTask world (cell 2)
    × Live 0 sum Src world.store (program_of world (cell 2))
unfolding Live run resolve Store.write await Store.await Store.track bind map create run_work build
    WriteOnce.await WriteOnce.write_result_to_value TrackingOnce.track TrackingOnce.hold
world_settles = (
  (tt, ((omega arith, tt), ((omega arith, tt), (tt, (tt, (tt, (tt, (tt, (tt, (tt, tt)))))))))),
  (omega arith, refl),
  (tt, λ n m. refl),
)

awaits-Mem_example : (q : Result ℕ ℕ) × Mem (7, q) world.store.log × User 7 q
awaits-Mem_example =
    awaits-Mem 0 sum Src User before after (cell 2) 7 world_valid world_settles.0 bind_run.2
      world_settles.1 world_settles.2

-- The status of every request is the state of the system; a request's value is its size.
abbrev lib : AioLibrary ℕ
lib = record {
  einprogress = 115;
  ecanceled = 125;
  eexist = 17;
  aio_error = λ sys block. sys;
  aio_read = λ sys block. sys;
}

abbrev completed : Waiting TaskValueSource
completed = record {
  callback = record { task_cell = 0 };
  request = record {
    request = record { buffer = 4; nbytes = 64; file_offset = pos 0 };
    control_block = record { aio_fildes = 3; aio_buf = 4; aio_nbytes = 64; aio_offset = pos 0 };
  };
}

abbrev awaited : Store ℕ Error
awaited = record {
  cells = λ c. once (record { value = none; callbacks = user 1 ∷ user 2 ∷ [] });
  jobs = [];
  log = [];
}

read_task_lem_example :
    (r : Result ℕ Error) × Outcome sum (λ q. q.nbytes) completed.request.request 125 r
    × Resolved sum awaited
        (run_read_job sum lib (λ q. q.nbytes) awaited 125 completed)
        (source 0)
        empty
        (user 1 ∷ user 2 ∷ [])
        r
unfolding is_completed
read_task_lem_example =
    read_task_lem sum lib (λ q. q.nbytes) 125 125 (λ block settled. refl) completed refl awaited
      (user 1 ∷ user 2 ∷ []) refl
