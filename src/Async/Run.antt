-- ===== src/Async/Run.antt =====
-- Histories of the calls of a client, of the completion of value sources and of the jobs of workers.
use async_ery.Base.{ℕ, zero, suc, Option, none, some, List, [], ◌∷◌}
use async_ery.Cell.Result.{Result}
use async_ery.Scheduler.Context.{Context}
use async_ery.Async.Program.{Prog}
use async_ery.Async.Store.{Ref, user, Job}
use async_ery.Async.ValueSource.{resolve}
use async_ery.Async.Task.{World, create, map, bind, when_any, when_all, await, run_work}

pub data Call (V Err : Type 0) : Type 0 where
  creates : V → Call V Err
  maps : Ref → (V → V) → Call V Err
  binds : Ref → (V → Prog V) → Call V Err
  when_anys : List Ref → Call V Err
  when_alls : List Ref → Call V Err
  awaits : Ref → ℕ → Call V Err
  completes : ℕ → Context → Result V Err → Call V Err  -- `complete` and `error` of a value source
  runs : ℕ → Context → Call V Err  -- a worker runs the job of this number in the queue

module _ {V Err : Type 0} where
  -- The job of number `i`, and the others.
  abbrev pub take_job : ℕ → List (Job V Err) → Option (Job V Err × List (Job V Err))
  take_job i [] = none
  take_job zero (j ∷ jobs) = some (j, jobs)
  take_job (suc i) (j ∷ jobs) = elim (take_job i jobs) [
    | none ↦ none
    | some (k, rest) ↦ some (k, j ∷ rest)
  ]

  module _ (blank : V) (pack : List V → V) where
    unfoldable pub run_job :
        World V Err → Context → Option (Job V Err × List (Job V Err)) → World V Err
    run_job w ctx none = w
    run_job w ctx (some (j, rest)) =
        run_work blank pack (record w { store = record w.store { jobs = rest } }) ctx j.work

    unfoldable pub apply : World V Err → Call V Err → World V Err
    unfolding run_job
    apply w (creates v) = (create w v).1
    apply w (maps c func) = (map blank pack w c func).1
    apply w (binds c func) = (bind blank pack w c func).1
    apply w (when_anys tasks) = (when_any blank pack w tasks).1
    apply w (when_alls tasks) = (when_all blank pack w tasks).1
    apply w (awaits c n) = await blank pack w c (user n)
    apply w (completes k ctx result) = record w {
      store = resolve pack w.store (record { task_cell = k }) ctx result;
    }
    apply w (runs i ctx) = run_job w ctx (take_job i w.store.jobs)

    unfoldable pub run : World V Err → List (Call V Err) → World V Err
    unfolding apply
    run w [] = w
    run w (c ∷ calls) = run (apply w c) calls
