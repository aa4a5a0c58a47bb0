-- ===== src/Async/Sound/Jobs.antt =====
-- A call of a client and the job of a worker keep the world sound, and so does a history of them.
use async_ery.Base.{
  sym, ◌∙◌, inl, inr, ℕ, zero, suc, ◌∷◌, refl, subst, Option, none, some, List, [], All, All-append,
  arith,
}
use async_ery.Cell.Result.{Result, value, error}
use async_ery.Scheduler.Context.{Context}
use async_ery.Async.Program.{Prog, mapped, Means}
use async_ery.Async.Store.{
  Ref, source, Callback, map_to, bind_to, any_to, all_to, user, Work, call, compute, Job, Store,
}
use async_ery.Async.Task.{World, program_of, build, run_bind, run_callback, run_work, await}
use async_ery.Async.ValueSource.{resolve}
use async_ery.Async.Run.{
  Call, creates, maps, binds, when_anys, when_alls, awaits, completes, runs, take_job, run_job,
  apply,
}
use async_ery.Async.Sound.{In, Leads, Fits, WorkFits, JobFits, Sound}
use async_ery.Async.Sound.Grow.{same_at, In-grow, May-grow}
use async_ery.Async.Sound.Cells.{await_sound}
use async_ery.Async.Sound.Tracking.{write_sound, track_sound}
use async_ery.Async.Sound.Reports.{AnyLast, AllLast, report_any_sound, report_all_sound}
use async_ery.Async.Sound.Worlds.{Extends, Extends-refl, SoundWorld, Built}
use async_ery.Async.Sound.Makes.{create_built, map_built, bind_built}
use async_ery.Async.Sound.Joins.{when_any_built, when_all_built}
use async_ery.Async.Sound.Build.{build_built}

module _ {V Err : Type 0} (blank : V) (pack : List V → V) (Src : ℕ → Result V Err → Type 0)
    (User : ℕ → Result V Err → Type 0) where
  -- The world after a step.
  pub record Goes (w w' : World V Err) : Type 0 where
    pub sound : SoundWorld blank pack Src User w'
    pub grown : Extends w w'

  goes :
      {w w' : World V Err} {p : Prog V} {c : Ref} → Built blank pack Src User w p c w' → Goes w w'
  goes b = record { sound = b.sound; grown = b.grown }

  -- A step that allocates nothing.
  stays :
      (w : World V Err) (s : Store V Err)
      → Sound blank pack Src User w.made w.next s
      → Goes w (record w { store = s })
  stays w s h = record { sound = h; grown = record { more = omega arith; same = λ n lt. refl } }

  run_bind_sound :
      (w : World V Err) (ctx : Context) (t d : Ref) (f : V → Prog V) (r : Result V Err)
      → SoundWorld blank pack Src User w
      → Fits blank pack Src User w.made w.next (bind_to t d f) r
      → Goes w (run_bind blank pack w ctx t d f r)
  unfolding run_bind
  run_bind_sound w ctx t d f (value v) h fit =
      let b = build_built blank pack Src User (f v) w h in
      let c = (build blank pack (f v) w).0 in
      let w' = (build blank pack (f v) w).1 in
      let more = b.grown.more in
      let same = b.grown.same in
      record {
        sound =
            track_sound blank pack Src User w'.made w'.next (suc w'.next) w'.store t c
              (In-grow blank pack Src User more same t fit.0) b.ref_in
              (λ r m.
                May-grow blank pack Src User more same t r fit.0
                  (fit.2 r (subst (λ p. Means blank pack Src p r) b.stands m)))
              (subst (Leads blank pack Src User w'.made w'.next t c)
                (sym (same_at blank pack Src User more same t fit.0 ∙ fit.5.1))
                (inl (v, fit.5.2, b.stands)))
              b.sound;
        grown = record { more = more; same = same };
      }
  run_bind_sound w ctx t d f (error e) h fit = stays w _ (
      track_sound blank pack Src User w.made w.next (suc w.next) _ t d fit.0 fit.1 fit.3
        (subst (Leads blank pack Src User w.made w.next t d) (sym fit.5.1)
          (inr (fit.6, fit.7 ∙ fit.5.1)))
        (write_sound blank pack Src User w.made w.next w.store ctx d (error e) fit.1 fit.2 h))

  -- What a job has to know, when its report completes a join.
  abbrev pub Last : World V Err → Callback V → Result V Err → Type 0
  Last w (map_to d f) r = Unit
  Last w (bind_to t d f) r = Unit
  Last w (any_to d i) r = AnyLast blank pack Src User w.made w.next (w.store.cells d) d r
  Last w (all_to d i) r = AllLast blank pack Src User w.made w.next (w.store.cells d) d i r
  Last w (user n) r = Unit

  abbrev pub WorkLast : World V Err → Work V Err → Type 0
  WorkLast w (call callback r) = Last w callback r
  WorkLast w (compute d v) = Unit

  run_callback_sound :
      (w : World V Err) (ctx : Context) (callback : Callback V) (r : Result V Err)
      → SoundWorld blank pack Src User w
      → Fits blank pack Src User w.made w.next callback r
      → Last w callback r
      → Goes w (run_callback blank pack w ctx callback r)
  unfolding run_callback
  run_callback_sound w ctx (map_to d f) r h fit last =
      stays w _
        (write_sound blank pack Src User w.made w.next w.store ctx d (mapped f r) fit.0 fit.1 h)
  run_callback_sound w ctx (bind_to t d f) r h fit last = run_bind_sound w ctx t d f r h fit
  run_callback_sound w ctx (any_to d i) r h fit last =
      stays w _
        (report_any_sound blank pack Src User w.made w.next w.store ctx d i r fit.0 fit.1 last h)
  run_callback_sound w ctx (all_to d i) r h fit last =
      stays w _
        (report_all_sound blank pack Src User w.made w.next w.store ctx d i r fit.0 fit.1 last h)
  run_callback_sound w ctx (user n) r h fit last = stays w _ (record {
    cells = h.cells;
    jobs = h.jobs;
    log = All-append (λ e. User e.0 e.1) w.store.log ((n, r) ∷ []) h.log (fit, tt);
  })

  run_work_sound :
      (w : World V Err) (ctx : Context) (work : Work V Err)
      → SoundWorld blank pack Src User w
      → WorkFits blank pack Src User w.made w.next work
      → WorkLast w work
      → Goes w (run_work blank pack w ctx work)
  unfolding run_work
  run_work_sound w ctx (call callback r) h fit last = run_callback_sound w ctx callback r h fit last
  run_work_sound w ctx (compute d v) h fit last =
      stays w _
        (write_sound blank pack Src User w.made w.next w.store ctx d (value v) fit.0 fit.1 h)

  -- What is known of a job that was taken and of those that stay.
  unfoldable pub TakenFits : ℕ → (ℕ → Prog V) → Option (Job V Err × List (Job V Err)) → Type 0
  TakenFits next made none = Unit
  TakenFits next made (some (j, rest)) =
      JobFits blank pack Src User made next j × All (JobFits blank pack Src User made next) rest

  pub taken_fits :
      (next : ℕ) (made : ℕ → Prog V) (i : ℕ) (jobs : List (Job V Err))
      → All (JobFits blank pack Src User made next) jobs
      → TakenFits next made (take_job i jobs)
  unfolding TakenFits
  taken_fits next made i [] h = tt
  taken_fits next made zero (j ∷ jobs) h = h
  taken_fits next made (suc i) (j ∷ jobs) h = at (take_job i jobs) (taken_fits next made i jobs h.1)
    where
      at :
          (o : Option (Job V Err × List (Job V Err)))
          → TakenFits next made o
          → TakenFits next made (elim o [ none ↦ none | some (k, rest) ↦ some (k, j ∷ rest) ])
      at none t = tt
      at (some (k, rest)) t = (t.0, (h.0, t.1))

  abbrev pub TakenLast : World V Err → Option (Job V Err × List (Job V Err)) → Type 0
  TakenLast w none = Unit
  TakenLast w (some (j, rest)) = WorkLast w j.work

  abbrev pub CallLast : World V Err → Call V Err → Type 0
  CallLast w (runs i ctx) = TakenLast w (take_job i w.store.jobs)
  CallLast w (creates v) = Unit
  CallLast w (maps c func) = Unit
  CallLast w (binds c func) = Unit
  CallLast w (when_anys tasks) = Unit
  CallLast w (when_alls tasks) = Unit
  CallLast w (awaits c n) = Unit
  CallLast w (completes k ctx result) = Unit

  run_job_sound :
      (w : World V Err) (ctx : Context) (o : Option (Job V Err × List (Job V Err)))
      → SoundWorld blank pack Src User w
      → TakenFits w.next w.made o
      → TakenLast w o
      → Goes w (run_job blank pack w ctx o)
  unfolding run_job TakenFits
  run_job_sound w ctx none h t last = record { sound = h; grown = Extends-refl w }
  run_job_sound w ctx (some (j, rest)) h t last =
      let w' = record w { store = record w.store { jobs = rest } } in
      let g =
        run_work_sound w' ctx j.work (record { cells = h.cells; jobs = t.1; log = h.log }) t.0
          last in
      record { sound = g.sound; grown = record { more = g.grown.more; same = g.grown.same } }

  -- The cells that a call names are there, a value source is completed with a result that it may have,
  -- and a callback of the client accepts what its task may give.
  abbrev pub Valid : World V Err → Call V Err → Type 0
  Valid w (creates v) = Unit
  Valid w (maps c func) = In w.next c
  Valid w (binds c func) = In w.next c
  Valid w (when_anys tasks) = All (In w.next) tasks
  Valid w (when_alls tasks) = All (In w.next) tasks
  Valid w (awaits c n) =
      In w.next c × ((r : Result V Err) → Means blank pack Src (program_of w c) r → User n r)
  Valid w (completes k ctx result) = Src k result
  Valid w (runs i ctx) = Unit

  abbrev pub AllValid : World V Err → List (Call V Err) → Type 0
  AllValid w [] = Unit
  AllValid w (c ∷ calls) = Valid w c × AllValid (apply blank pack w c) calls

  pub apply_sound :
      (w : World V Err) (c : Call V Err)
      → SoundWorld blank pack Src User w
      → Valid w c
      → CallLast w c
      → Goes w (apply blank pack w c)
  unfolding apply await resolve Means
  apply_sound w (creates v) h ok last = goes (create_built blank pack Src User w v h)
  apply_sound w (maps c f) h ok last = goes (map_built blank pack Src User w c _ f h ok refl)
  apply_sound w (binds c f) h ok last = goes (bind_built blank pack Src User w c _ f h ok refl)
  apply_sound w (when_anys cs) h ok last =
      goes (when_any_built blank pack Src User w cs _ h ok refl)
  apply_sound w (when_alls cs) h ok last =
      goes (when_all_built blank pack Src User w cs _ h ok refl)
  apply_sound w (awaits c n) h ok last =
      stays w _
        (await_sound blank pack Src User w.made w.next (suc w.next) w.store c (user n) ok.0 ok.1 h)
  apply_sound w (completes k ctx (value v)) h ok last =
      stays w _
        (write_sound blank pack Src User w.made w.next w.store ctx (source k) (value v) tt ok h)
  apply_sound w (completes k ctx (error e)) h ok last =
      stays w _
        (write_sound blank pack Src User w.made w.next w.store ctx (source k) (error e) tt ok h)
  apply_sound w (runs i ctx) h ok last =
      run_job_sound w ctx (take_job i w.store.jobs) h
        (taken_fits w.next w.made i w.store.jobs h.jobs) last
