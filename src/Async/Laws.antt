-- ===== src/Async/Laws.antt =====
-- What the tasks of include/async_lib/task.h promise: the results of all histories of calls.
use async_ery.Base.{
  refl, ap, ◌∙◌, suc, ℕ, ◌≡◌, some, List, [], ◌∷◌, ◌++◌, All, Mem, All-Mem, subst, inl, inr,
}
use mathlib.Core.Option
use async_ery.Cell.Result.{Result, value, error, map_result}
use async_ery.Async.Program.{Prog, Means}
use async_ery.Async.Store.{Ref, user, read}
use async_ery.Async.Task.{World, program_of, initial, build, block}
use async_ery.Async.Run.{Call, awaits, run}
use async_ery.Async.Sound.{In}
use async_ery.Async.Owed.{Queued}
use async_ery.Async.Owed.Jobs.{Served}
use async_ery.Async.Owed.Served.{registered-Served, initial_linked, run-Serves}
use async_ery.Async.Owed.Change.{enough}
use async_ery.Async.Due.{IsTask, task-In}
use async_ery.Async.Due.Histories.{AllUseTasks, run-AllDue, initial_due}
use async_ery.Async.Due.Live.{Live}
use async_ery.Async.Due.Settled.{settled}
use async_ery.Async.Owed.Quiet.{read-quiet}
use async_ery.Async.Sound.Worlds.{SoundWorld, Built}
use async_ery.Async.Sound.Build.{build_built}
use async_ery.Async.Sound.Jobs.{AllValid}
use async_ery.Async.Tokens.Whole.{run_whole, initial_whole}
use async_ery.Async.Sound.Reads.{read_sound}

block_result : {V Err : Type 0} (r : Result V Err) → map_result r value error ≡ r
block_result (value v) = refl
block_result (error e) = refl

module _ {V Err : Type 0} (blank : V) (pack : List V → V) (Src : ℕ → Result V Err → Type 0)
    (User : ℕ → Result V Err → Type 0) where
  -- After any valid history of calls of the client, of completions of value sources whose results
  -- satisfy `Src`, and of jobs that workers run in any order, what is read from a cell is a result that
  -- the expression of its task may have: a value of a `when_all` has the values of all its tasks in
  -- order, an error of it is that of one of them, a value of a `when_any` is that of one of its tasks,
  -- and an error of it is that of one of them when all may fail.
  pub read-Means :
      (calls : List (Call V Err))
      → AllValid blank pack Src User initial calls
      → (c : Ref) (fuel : ℕ) (r : Result V Err) → In (run blank pack initial calls).next c
      → read pack fuel (run blank pack initial calls).store c ≡ some r
      → Means blank pack Src (program_of (run blank pack initial calls) c) r
  read-Means calls ok c fuel r i e =
      let g = run_whole blank pack Src User initial calls (initial_whole blank pack Src User) ok in
      read_sound blank pack Src User fuel (run blank pack initial calls) c r g.sound.sound i e

  -- After any valid history of calls, completions and jobs, every callback of the client that was
  -- called was called with a result that it accepts: if it accepts all results of the expression of the
  -- task that it was registered with, it is called with no other.
  pub run-All :
      (calls : List (Call V Err))
      → AllValid blank pack Src User initial calls
      → All (λ e. User e.0 e.1) (run blank pack initial calls).store.log
  run-All calls ok =
      (run_whole blank pack Src User initial calls (initial_whole blank pack Src User)
        ok).sound.sound.log

  -- A function of a client that builds a task of an expression, in a sound world, leaves the world
  -- sound, gives no old cell another meaning, and returns a task that stands for the expression.
  pub build-Built :
      (p : Prog V) (w : World V Err)
      → SoundWorld blank pack Src User w
      → Built blank pack Src User w p (build blank pack p w).0 (build blank pack p w).1
  build-Built p w h = build_built blank pack Src User p w h

  -- A callback `n` that a client registers with a task, at any point of a valid history, is never lost:
  -- after any further calls, completions and jobs it waits in the cell of the task or in the one that
  -- cell tracks, or its call is queued, or it was called.
  pub run-Served :
      (before after : List (Call V Err)) (c : Ref) (n : ℕ)
      → AllValid blank pack Src User initial (before ++ awaits c n ∷ after)
      → Served blank pack Src User (run blank pack initial (before ++ awaits c n ∷ after)) c n
  run-Served before after c n ok =
      (registered-Served blank pack Src User initial before after c n
        (initial_whole blank pack Src User) (initial_linked blank pack Src User) ok).2

  -- When no job is left, every callback that was registered, at any point of a valid history, with a
  -- task whose result can be read was called, with a result that it accepts.
  pub run-Mem :
      (before after : List (Call V Err)) (c : Ref) (n fuel : ℕ) (r : Result V Err)
      → AllValid blank pack Src User initial (before ++ awaits c n ∷ after)
      → (run blank pack initial (before ++ awaits c n ∷ after)).store.jobs ≡ []
      → read pack fuel (run blank pack initial (before ++ awaits c n ∷ after)).store c ≡ some r
      → (q : Result V Err) × Mem
          (n, q)
          (run blank pack initial (before ++ awaits c n ∷ after)).store.log
        × User n q
  run-Mem before after c n fuel r ok quiet e =
      let calls = before ++ awaits c n ∷ after in
      let w = run blank pack initial calls in
      let end =
        registered-Served blank pack Src User initial before after c n
          (initial_whole blank pack Src User) (initial_linked blank pack Src User) ok in
      let accepts = run-All calls ok in
      elim end.2 [
        | inl (inl waits) ↦
            absurd (read-quiet pack w.next fuel w.store c (user n) r end.0 end.1 e waits)
        | inl (inr queued) ↦ absurd (subst (Queued (user n)) quiet queued)
        | inr (q, m) ↦ (q, m, All-Mem (λ x. User x.0 x.1) (n, q) w.store.log accepts m)
      ]

  -- The result that a live task has when no job is left.
  read-Live :
      (calls : List (Call V Err))
      → AllValid blank pack Src User initial calls
      → AllUseTasks blank pack Src User initial calls
      → (run blank pack initial calls).store.jobs ≡ []
      → (c : Ref) → IsTask (run blank pack initial calls) c
      → Live blank pack Src
          (run blank pack initial calls).store
          (program_of (run blank pack initial calls) c)
      → (r : Result V Err) × (read pack
            (suc (run blank pack initial calls).next)
            (run blank pack initial calls).store
            c
          ≡ some r)
  read-Live calls ok tasks quiet c t live =
      let w = run blank pack initial calls in
      let start = initial_whole blank pack Src User in
      let g = run_whole blank pack Src User initial calls start ok in
      let first = initial_linked blank pack Src User in
      let l = (run-Serves blank pack Src User initial calls start first ok).0 in
      let due =
        run-AllDue blank pack Src User initial calls start first ok tasks
          (initial_due blank pack Src User) in
      settled blank pack Src User w g.sound.sound l due quiet (program_of w c) live c t refl
        (suc w.next) (enough w.next c)

  -- After a valid history in which the client makes tasks from the tasks that it was given, when no job
  -- is left, every task has a result, which its expression may have and which `block` returns, if the
  -- value sources have theirs, of the expression and of what each `bind` may come to, and each
  -- `when_any` and `when_all` is of between one and `2 ^ 64 - 1` tasks.
  pub read-run :
      (calls : List (Call V Err))
      → AllValid blank pack Src User initial calls
      → AllUseTasks blank pack Src User initial calls
      → (run blank pack initial calls).store.jobs ≡ []
      → (c : Ref) → IsTask (run blank pack initial calls) c
      → Live blank pack Src
          (run blank pack initial calls).store
          (program_of (run blank pack initial calls) c)
      → (r : Result V Err) × (block blank pack (run blank pack initial calls) c ≡ some r)
        × Means blank pack Src (program_of (run blank pack initial calls) c) r
  unfolding block
  read-run calls ok tasks quiet c t live =
      let w = run blank pack initial calls in
      let s = read-Live calls ok tasks quiet c t live in
      (
        s.0,
        ap (Option.map (λ r. map_result r value error)) s.1 ∙ ap (λ r. some r) (block_result s.0),
        read-Means calls ok c (suc w.next) s.0 (task-In w c t) s.1,
      )

  -- After a valid history in which the client makes tasks from the tasks that it was given, when no job
  -- is left, every callback that was registered, at any point of the history, with a
  -- task was called, with a result that it accepts, if the value sources have theirs, of the expression
  -- of the task and of what each `bind` may come to, and each `when_any` and `when_all` is of between
  -- one and `2 ^ 64 - 1` tasks.
  pub awaits-Mem :
      (before after : List (Call V Err)) (c : Ref) (n : ℕ)
      → AllValid blank pack Src User initial (before ++ awaits c n ∷ after)
      → AllUseTasks blank pack Src User initial (before ++ awaits c n ∷ after)
      → (run blank pack initial (before ++ awaits c n ∷ after)).store.jobs ≡ []
      → IsTask (run blank pack initial (before ++ awaits c n ∷ after)) c
      → Live blank pack Src
          (run blank pack initial (before ++ awaits c n ∷ after)).store
          (program_of (run blank pack initial (before ++ awaits c n ∷ after)) c)
      → (q : Result V Err) × Mem
          (n, q)
          (run blank pack initial (before ++ awaits c n ∷ after)).store.log
        × User n q
  awaits-Mem before after c n ok tasks quiet t live =
      let calls = before ++ awaits c n ∷ after in
      let s = read-Live calls ok tasks quiet c t live in
      run-Mem before after c n (suc (run blank pack initial calls).next) s.0 ok quiet s.1
