-- ===== src/Async/Tokens/Whole.antt =====
-- Calls of clients and jobs of workers keep a world sound in which each report can come once, and so does
-- a history of them.
use async_ery.Base.{
  ℕ, zero, suc, ◌+◌, ◌≡◌, ◌≤◌, inl, inr, refl, false, Option, none, some, List, [], ◌∷◌, total,
  arith,
}
use async_ery.Cell.Result.{Result, value, error}
use async_ery.Scheduler.Context.{Context}
use async_ery.Async.Store.{Callback, source, user, Job, Store}
use async_ery.Async.Task.{World, initial}
use async_ery.Async.Task
use async_ery.Async.ValueSource.{resolve}
use async_ery.Async.Run.{
  Call, creates, maps, binds, when_anys, when_alls, awaits, completes, runs, take_job, run_job,
  apply, run,
}
use async_ery.Async.Sound.Worlds.{Extends, Extends-refl, Extends-trans, SoundWorld}
use async_ery.Async.Sound.Jobs.{
  Valid, AllValid, TakenFits, taken_fits, TakenLast, CallLast, apply_sound,
}
use async_ery.Async.Sound.Reads.{initial_sound}
use async_ery.Async.Tokens.{job_load, Alone}
use async_ery.Async.Tokens.Steps.{await-Op, write-Op}
use async_ery.Async.Tokens.Worlds.{weight, budget, Tight, Taken, step-Tight}
use async_ery.Async.Tokens.Makes.{
  create-Tight, map-Tight, bind-Tight, when_any-Tight, when_all-Tight,
}
use async_ery.Async.Tokens.Runs.{run_work-Tight, knows}

module _ {V Err : Type 0} (w : Callback V → ℕ) where
  abbrev TakenLoad : List (Job V Err) → Option (Job V Err × List (Job V Err)) → Type 0
  TakenLoad jobs none = Unit
  TakenLoad jobs (some (j, rest)) = total (job_load w) jobs ≡ job_load w j + total (job_load w) rest

  taken_load : (i : ℕ) (jobs : List (Job V Err)) → TakenLoad jobs (take_job i jobs)
  taken_load i [] = tt
  taken_load zero (j ∷ jobs) = refl
  taken_load (suc i) (j ∷ jobs) = at (take_job i jobs) (taken_load i jobs)
    where
      at :
          (o : Option (Job V Err × List (Job V Err)))
          → TakenLoad jobs o
          → TakenLoad (j ∷ jobs) (elim o [ none ↦ none | some (k, rest) ↦ some (k, j ∷ rest) ])
      at none t = tt
      at (some (k, rest)) t = omega arith

  take-Alone :
      (s : Store V Err) (j : Job V Err) (rest : List (Job V Err)) (n : ℕ)
      → TakenLoad s.jobs (some (j, rest))
      → Alone w n s
      → (k : ℕ) × (k + job_load w j ≤ n) × Alone w k (record s { jobs = rest })
  take-Alone s j rest n e (inl (c, here, others, quiet)) =
      (n, omega arith, inl (c, here, others, omega arith))
  take-Alone s j rest n e (inr (nowhere, few)) =
      (total (job_load w) rest, omega arith, inr (nowhere, omega arith))

module _ {V Err : Type 0} (blank : V) (pack : List V → V) (Src : ℕ → Result V Err → Type 0)
    (User : ℕ → Result V Err → Type 0) where
  pub record WholeWorld (w : World V Err) : Type 0 where
    pub sound : SoundWorld blank pack Src User w
    pub tight : Tight blank pack Src w

  pub record Goes (w w' : World V Err) : Type 0 where
    pub sound : WholeWorld w'
    pub grown : Extends w w'

  take-Taken :
      (w : World V Err) (j : Job V Err) (rest : List (Job V Err))
      → ((p : Callback V → ℕ) → TakenLoad p w.store.jobs (some (j, rest)))
      → Tight blank pack Src w
      → Taken blank pack Src (record w { store = record w.store { jobs = rest } }) j.work
  take-Taken w j rest e t = record {
    left = t.left;
    token = λ m i.
        take-Alone (weight m i) w.store j rest (budget (t.left m i)) (e (weight m i)) (t.token m i);
    fresh = t.fresh;
    tally = t.tally;
  }

  run_job_whole :
      (w : World V Err) (ctx : Context) (o : Option (Job V Err × List (Job V Err)))
      → ((p : Callback V → ℕ) → TakenLoad p w.store.jobs o)
      → TakenFits blank pack Src User w.next w.made o
      → Tight blank pack Src w
      → Tight blank pack Src (run_job blank pack w ctx o) × TakenLast blank pack Src User w o
  unfolding run_job TakenFits
  run_job_whole w ctx none e fit t = (t, tt)
  run_job_whole w ctx (some (j, rest)) e fit t =
      let w' = record w { store = record w.store { jobs = rest } } in
      let taken = take-Taken w j rest e t in
      (
        run_work-Tight blank pack Src User w' ctx j.work taken fit.0,
        knows blank pack Src User w' j.work taken fit.0,
      )

  apply-Tight :
      (w : World V Err) (c : Call V Err)
      → WholeWorld w
      → Tight blank pack Src (apply blank pack w c) × CallLast blank pack Src User w c
  unfolding apply Task.await resolve
  apply-Tight w (creates v) h = (create-Tight blank pack Src w v h.tight, tt)
  apply-Tight w (maps c f) h = (map-Tight blank pack Src w c f h.tight, tt)
  apply-Tight w (binds c f) h = (bind-Tight blank pack Src w c f h.tight, tt)
  apply-Tight w (when_anys cs) h = (when_any-Tight blank pack Src w cs h.tight, tt)
  apply-Tight w (when_alls cs) h = (when_all-Tight blank pack Src w cs h.tight, tt)
  apply-Tight w (awaits c n) h = (
    step-Tight blank pack Src w _
        (λ m i. await-Op (weight m i) pack (suc w.next) w.store c (user n)) h.tight,
    tt,
  )
  apply-Tight w (completes k ctx (value v)) h = (
    step-Tight blank pack Src w _
        (λ m i. write-Op (weight m i) pack w.store ctx (source k) (value v)) h.tight,
    tt,
  )
  apply-Tight w (completes k ctx (error e)) h = (
    step-Tight blank pack Src w _
        (λ m i. write-Op (weight m i) pack w.store ctx (source k) (error e)) h.tight,
    tt,
  )
  apply-Tight w (runs i ctx) h =
      run_job_whole w ctx (take_job i w.store.jobs) (λ p. taken_load p i w.store.jobs)
        (taken_fits blank pack Src User w.next w.made i w.store.jobs h.sound.jobs) h.tight

  pub apply_whole :
      (w : World V Err) (c : Call V Err)
      → WholeWorld w
      → Valid blank pack Src User w c
      → Goes w (apply blank pack w c)
  apply_whole w c h ok =
      let t = apply-Tight w c h in
      let g = apply_sound blank pack Src User w c h.sound ok t.1 in
      record { sound = record { sound = g.sound; tight = t.0 }; grown = g.grown }

  pub run_whole :
      (w : World V Err) (calls : List (Call V Err))
      → WholeWorld w
      → AllValid blank pack Src User w calls
      → Goes w (run blank pack w calls)
  unfolding run
  run_whole w [] h ok = record { sound = h; grown = Extends-refl w }
  run_whole w (c ∷ calls) h ok =
      let g = apply_whole w c h ok.0 in
      let g' = run_whole (apply blank pack w c) calls g.sound ok.1 in
      record { sound = g'.sound; grown = Extends-trans g.grown g'.grown }

  pub initial_whole : WholeWorld (initial {V = V} {Err = Err})
  initial_whole = record {
    sound = initial_sound blank pack Src User;
    tight = record {
      left = λ m i. false;
      token = λ m i. inr (λ d. refl, omega arith);
      fresh = λ m i le. refl;
      tally = λ m lt. absurd (omega arith);
    };
  }
