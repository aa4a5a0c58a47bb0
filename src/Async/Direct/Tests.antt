-- ===== src/Async/Direct/Tests.antt =====
-- A history with tasks of all kinds, in which every task comes to its result.
use async_ery.Base.{
  ℕ, zero, suc, ◌+◌, ◌*◌, ◌≡◌, ◌<◌, refl, some, List, [], ◌∷◌, total, ◌++◌, Mem, arith,
}
use async_ery.Cell.Result.{Result, value, error}
use async_ery.Cell.WriteOnce
use async_ery.Cell.TrackingOnce
use async_ery.Cell.WhenAny
use async_ery.Cell.WhenAll
use async_ery.Scheduler.Context.{empty, of_worker}
use async_ery.Async.Program.{Means}
use async_ery.Async.Store.{Ref, source, cell, read}
use async_ery.Async.Store
use async_ery.Async.ValueSource.{resolve}
use async_ery.Async.Task.{
  World, initial, program_of, create, map, bind, when_any, when_all, await, block, run_work, build,
}
use async_ery.Async.Run.{
  Call, creates, maps, binds, when_anys, when_alls, awaits, completes, runs, run,
}
use async_ery.Async.Sound.Jobs.{AllValid}
use async_ery.Async.Due.{IsTask}
use async_ery.Async.Due.Histories.{AllUseTasks}
use async_ery.Async.Due.Live.{Live}
use async_ery.Async.Laws.{read-Means, read-run}
use async_ery.Async.Direct.{
  Direct, input, give, convert, follow, as_tasks, eval, Exactly, AllRegister, Anything, block-eval,
  read-eval, awaits-eval,
}

abbrev sum : List ℕ → ℕ
sum = total (λ n. n)

-- Source 0 has the value 3, and the others fail.
abbrev inputs : ℕ → Result ℕ ℕ
inputs zero = value 3
inputs (suc n) = error 9

abbrev add_input : ℕ → Direct ℕ
add_input n = convert (input 0) (λ m. n + m)

abbrev direct : Direct ℕ
direct = follow (convert (give 5) (λ n. 2 * n)) add_input

abbrev calls : List (Call ℕ ℕ)
calls =
    creates 5
    ∷ maps (cell 0) (λ n. 2 * n)
    ∷ binds (cell 1) (λ n. as_tasks (add_input n))
    ∷ when_anys (source 1 ∷ cell 1 ∷ [])
    ∷ when_alls (cell 2 ∷ source 0 ∷ [])
    ∷ completes 1 empty (error 9)
    ∷ runs 1 empty
    ∷ runs 0 (of_worker 0)
    ∷ runs 0 (of_worker 1)
    ∷ runs 1 (of_worker 0)
    ∷ runs 0 (of_worker 0)
    ∷ completes 0 empty (value 3)
    ∷ runs 1 (of_worker 1)
    ∷ runs 0 (of_worker 1)
    ∷ runs 0 (of_worker 0)
    ∷ runs 0 (of_worker 0)
    ∷ []

abbrev world : World ℕ ℕ
world = run 0 sum initial calls

abbrev User : ℕ → Result ℕ ℕ → Type 0
User n r = Unit

calls_run :
    (world.store.jobs ≡ [])
    × (block 0 sum world (cell 2) ≡ some (value 13))
    × (block 0 sum world (cell 4) ≡ some (value 10))
    × (block 0 sum world (cell 5) ≡ some (value 16))
    × IsTask world (cell 2)
    × IsTask world (cell 5)
unfolding block run resolve Store.write await Store.await Store.track Store.report_any
    Store.report_all bind map create when_any when_all run_work build Store.read WriteOnce.await
    WriteOnce.write_result_to_value TrackingOnce.track TrackingOnce.hold WriteOnce.read
    WhenAny.on_result WhenAll.on_result WhenAny.make WhenAll.make WriteOnce.write
    WriteOnce.write_error
calls_run = (refl, refl, refl, refl, (omega arith, refl), (omega arith, tt))

-- The history is valid, and the expressions of the two tasks are live.
calls_valid :
    AllValid 0 sum (Exactly inputs) User initial calls
    × AllUseTasks 0 sum (Exactly inputs) User initial calls
    × Live 0 sum (Exactly inputs) world.store (as_tasks direct)
    × Live 0 sum (Exactly inputs) world.store (program_of world (cell 5))
    × (program_of world (cell 2) ≡ as_tasks direct)
unfolding Live block run resolve Store.write await Store.await Store.track Store.report_any
    Store.report_all bind map create when_any when_all run_work build Store.read WriteOnce.await
    WriteOnce.write_result_to_value TrackingOnce.track TrackingOnce.hold WriteOnce.read
    WhenAny.on_result WhenAll.on_result WhenAny.make WhenAll.make WriteOnce.write
    WriteOnce.write_error
calls_valid =
    let doubled : Live 0 sum (Exactly inputs) world.store (as_tasks direct) = (tt, λ n m. refl) in
    (
      (
        tt,
        (
          omega arith,
          (
            omega arith,
            (
              (tt, (omega arith, tt)),
              (
                (omega arith, (tt, tt)),
                (refl, (tt, (tt, (tt, (tt, (tt, (refl, (tt, (tt, (tt, (tt, tt))))))))))),
              ),
            ),
          ),
        ),
      ),
      (
        tt,
        (
          (omega arith, tt),
          (
            (omega arith, tt),
            (
              (tt, ((omega arith, tt), tt)),
              (
                ((omega arith, refl), (tt, tt)),
                (tt, (tt, (tt, (tt, (tt, (tt, (tt, (tt, (tt, (tt, (tt, tt))))))))))),
              ),
            ),
          ),
        ),
      ),
      doubled,
      ((omega arith, omega arith), (doubled, (refl, tt))),
      refl,
    )

read-run_example :
    (r : Result ℕ ℕ) × (block 0 sum world (cell 5) ≡ some r)
    × Means 0 sum (Exactly inputs) (program_of world (cell 5)) r
read-run_example =
    read-run 0 sum (Exactly inputs) User calls calls_valid.0 calls_valid.1 calls_run.0 (cell 5)
      calls_run.5 calls_valid.3

block-eval_example : block 0 sum world (cell 2) ≡ some (value 13)
block-eval_example =
    block-eval 0 sum inputs User calls calls_valid.0 calls_valid.1 calls_run.0 (cell 2) direct
      calls_run.4 calls_valid.4 calls_valid.2

-- Callback 7 waits for the task of `direct`.
abbrev before : List (Call ℕ ℕ)
before = creates 5 ∷ maps (cell 0) (λ n. 2 * n) ∷ binds (cell 1) (λ n. as_tasks (add_input n)) ∷ []

abbrev after : List (Call ℕ ℕ)
after =
    runs 0 (of_worker 0)
    ∷ runs 0 (of_worker 1)
    ∷ runs 0 (of_worker 1)
    ∷ completes 0 empty (value 3)
    ∷ runs 0 empty
    ∷ runs 0 empty
    ∷ []

abbrev waited : World ℕ ℕ
waited = run 0 sum initial (before ++ awaits (cell 2) 7 ∷ after)

waited_run :
    (waited.store.jobs ≡ [])
    × (waited.store.log ≡ (7, value 13) ∷ [])
    × (read sum 5 waited.store (cell 2) ≡ some (value 13))
    × (2 < waited.next)
    × IsTask waited (cell 2)
unfolding run resolve Store.write await Store.await Store.track bind map create run_work build
    Store.read WriteOnce.await WriteOnce.write_result_to_value TrackingOnce.track TrackingOnce.hold
    WriteOnce.read
waited_run = (refl, refl, refl, omega arith, (omega arith, refl))

-- The history is valid, and its callback is registered with a task of `direct`.
waited_valid :
    AllValid 0 sum
      (Exactly inputs)
      (Anything 0 sum inputs)
      initial
      (before ++ awaits (cell 2) 7 ∷ after)
    × AllUseTasks 0 sum
        (Exactly inputs)
        (Anything 0 sum inputs)
        initial
        (before ++ awaits (cell 2) 7 ∷ after)
    × AllRegister 0 sum inputs (λ n. direct) initial (before ++ awaits (cell 2) 7 ∷ after)
    × Live 0 sum (Exactly inputs) waited.store (program_of waited (cell 2))
    × (program_of waited (cell 2) ≡ as_tasks direct)
unfolding Live run resolve Store.write await Store.await Store.track bind map create run_work build
    WriteOnce.await WriteOnce.write_result_to_value TrackingOnce.track TrackingOnce.hold
waited_valid = (
  (
    tt,
    (
      omega arith,
      (omega arith, ((omega arith, λ r m. tt), (tt, (tt, (tt, (refl, (tt, (tt, tt)))))))),
    ),
  ),
  (tt, ((omega arith, tt), ((omega arith, tt), (tt, (tt, (tt, (tt, (tt, (tt, (tt, tt)))))))))),
  (tt, (tt, (tt, (refl, (tt, (tt, (tt, (tt, (tt, (tt, tt)))))))))),
  (tt, λ n m. refl),
  refl,
)

read-eval_example : value 13 ≡ eval inputs direct
read-eval_example =
    read-eval 0 sum inputs (Anything 0 sum inputs) (before ++ awaits (cell 2) 7 ∷ after)
      waited_valid.0 (cell 2) direct 5 (value 13) waited_run.3 waited_valid.4 waited_run.2

awaits-eval_example : Mem (7, value 13) waited.store.log
awaits-eval_example =
    awaits-eval 0 sum inputs (λ n. direct) before after (cell 2) 7 waited_valid.0 waited_valid.1
      waited_valid.2 waited_run.0 waited_run.4 waited_valid.3

joined_read : read sum 9 world.store (cell 5) ≡ some (value 16)
unfolding run resolve Store.write await Store.await Store.track Store.report_any Store.report_all
    bind map create when_any when_all run_work build Store.read WriteOnce.await
    WriteOnce.write_result_to_value TrackingOnce.track TrackingOnce.hold WriteOnce.read
    WhenAny.on_result WhenAll.on_result WhenAny.make WhenAll.make WriteOnce.write
    WriteOnce.write_error
joined_read = refl

read-Means_example : Means 0 sum (Exactly inputs) (program_of world (cell 5)) (value 16)
read-Means_example =
    read-Means 0 sum (Exactly inputs) User calls calls_valid.0 (cell 5) 9 (value 16) calls_run.5.0
      joined_read
