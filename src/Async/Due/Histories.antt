-- ===== src/Async/Due/Histories.antt =====
-- All cells stay due in the course of a history in which the client uses the tasks that it was given.
use async_ery.Base.{refl, ℕ, suc, arith, List, [], ◌∷◌, All}
use async_ery.Cell.Result.{Result, value, error}
use async_ery.Async.Program.{Prog}
use async_ery.Async.Store.{Ref, source, cell, user, Store}
use async_ery.Async.Task.{World, initial, await}
use async_ery.Async.ValueSource.{resolve}
use async_ery.Async.Run.{
  Call, creates, maps, binds, when_anys, when_alls, awaits, completes, runs, take_job, apply, run,
}
use async_ery.Async.Tokens.Whole.{WholeWorld, apply_whole}
use async_ery.Async.Sound.Jobs.{Valid, AllValid, taken_fits}
use async_ery.Async.Owed.Change.{enough}
use async_ery.Async.Owed.Await.{await-Awaited}
use async_ery.Async.Owed.Writes.{write-Keeping}
use async_ery.Async.Owed.Worlds.{LinkedWorld, stays-Preserves}
use async_ery.Async.Owed.Jobs.{taken-Left}
use async_ery.Async.Owed.Served.{apply-Serves}
use async_ery.Async.Due.{IsTask, AllDue}
use async_ery.Async.Due.Carry.{carry-AllDue}
use async_ery.Async.Due.Links.{Still, await-Still, write-Still}
use async_ery.Async.Due.Makes.{
  NewTask, Preserves-Carries, create-NewTask, map-NewTask, bind-NewTask,
}
use async_ery.Async.Due.Joined.{when_any-NewTask, when_all-NewTask}
use async_ery.Async.Due.Jobs.{run_job-AllDue}
use async_ery.Async.Owed.{Keeping}

module _ {V Err : Type 0} (blank : V) (pack : List V → V) (Src : ℕ → Result V Err → Type 0)
    (User : ℕ → Result V Err → Type 0) where
  -- A client makes tasks from tasks.
  abbrev pub UsesTasks : World V Err → Call V Err → Type 0
  UsesTasks w (creates v) = Unit
  UsesTasks w (maps c func) = IsTask w c
  UsesTasks w (binds c func) = IsTask w c
  UsesTasks w (when_anys tasks) = All (IsTask w) tasks
  UsesTasks w (when_alls tasks) = All (IsTask w) tasks
  UsesTasks w (awaits c n) = Unit
  UsesTasks w (completes k ctx result) = Unit
  UsesTasks w (runs i ctx) = Unit

  abbrev pub AllUseTasks : World V Err → List (Call V Err) → Type 0
  AllUseTasks w [] = Unit
  AllUseTasks w (c ∷ calls) = UsesTasks w c × AllUseTasks (apply blank pack w c) calls

  made_due :
      (w : World V Err) {p : Prog V} {c : Ref} {w' : World V Err}
      → LinkedWorld w
      → AllDue w 0
      → NewTask w p c w'
      → AllDue w' 0
  made_due w {w' = w'} l due m =
      carry-AllDue w w' (Preserves-Carries w w' l m.made.preserves m.still) 0 due m.due

  stays_due :
      (w : World V Err) (s : Store V Err)
      → LinkedWorld w
      → AllDue w 0
      → Keeping w.next w.store s
      → Still w.store s
      → AllDue (record w { store = s }) 0
  stays_due w s l due k still =
      let w' = record w { store = s } in
      carry-AllDue w w' (Preserves-Carries w w' l (stays-Preserves w s k) (λ n lt. still (cell n)))
        0 due (λ n f i. absurd (omega arith))

  apply-AllDue :
      (w : World V Err) (c : Call V Err)
      → WholeWorld blank pack Src User w
      → LinkedWorld w
      → Valid blank pack Src User w c
      → UsesTasks w c
      → AllDue w 0
      → AllDue (apply blank pack w c) 0
  unfolding apply await resolve
  apply-AllDue w (creates v) h l ok t due = made_due w l due (create-NewTask w v l)
  apply-AllDue w (maps c f) h l ok t due =
      made_due w l due (map-NewTask blank pack w c _ f l t refl)
  apply-AllDue w (binds c f) h l ok t due =
      made_due w l due (bind-NewTask blank pack w c _ f l t refl)
  apply-AllDue w (when_anys cs) h l ok t due =
      made_due w l due (when_any-NewTask blank pack w cs _ l t refl)
  apply-AllDue w (when_alls cs) h l ok t due =
      made_due w l due (when_all-NewTask blank pack w cs _ l t refl)
  apply-AllDue w (awaits c n) h l ok t due =
      stays_due w _ l due
        (await-Awaited pack w.next (suc w.next) w.store c (user n) l ok.0 (enough w.next c)).0
        (await-Still pack (suc w.next) w.store c (user n))
  apply-AllDue w (completes k ctx (value v)) h l ok t due =
      stays_due w _ l due (write-Keeping pack w.next w.store ctx (source k) (value v) l tt)
        (write-Still pack w.store ctx (source k) (value v))
  apply-AllDue w (completes k ctx (error e)) h l ok t due =
      stays_due w _ l due (write-Keeping pack w.next w.store ctx (source k) (error e) l tt)
        (write-Still pack w.store ctx (source k) (error e))
  apply-AllDue w (runs j ctx) h l ok t due =
      run_job-AllDue blank pack Src User w ctx (take_job j w.store.jobs) l
        (taken_fits blank pack Src User w.next w.made j w.store.jobs h.sound.jobs)
        (λ P q. taken-Left blank pack Src User P j w.store.jobs q) due

  pub run-AllDue :
      (w : World V Err) (calls : List (Call V Err))
      → WholeWorld blank pack Src User w
      → LinkedWorld w
      → AllValid blank pack Src User w calls
      → AllUseTasks w calls
      → AllDue w 0
      → AllDue (run blank pack w calls) 0
  unfolding run
  run-AllDue w [] h l ok ts due = due
  run-AllDue w (c ∷ calls) h l ok ts due =
      run-AllDue (apply blank pack w c) calls (apply_whole blank pack Src User w c h ok.0).sound
        (apply-Serves blank pack Src User w c h l ok.0).0 ok.1 ts.1
        (apply-AllDue w c h l ok.0 ts.0 due)

  pub initial_due : AllDue (initial {V = V} {Err = Err}) 0
  initial_due n f i = absurd (omega arith)
