-- ===== src/Async/Owed/Jobs.antt =====
-- The calls of a client and the jobs of workers lose no callback of the client: it is owed until it is
-- called.
use async_ery.Base.{
  refl, ℕ, zero, suc, ◌⊎◌, inl, inr, sym, subst, Option, none, some, List, [], ◌∷◌, Mem, append-Mem,
  last-Mem, arith,
}
use async_ery.Cell.Result.{Result, value, error}
use async_ery.Scheduler.Context.{Context}
use async_ery.Async.Program.{Prog, mapped}
use async_ery.Async.Store.{
  Ref, source, cell, Callback, map_to, bind_to, any_to, all_to, user, Work, call, compute, Job,
  Store, write,
}
use async_ery.Async.Task.{World, build, run_bind, run_callback, run_work}
use async_ery.Async.Run.{take_job, run_job}
use async_ery.Async.Later.{Later-refl}
use async_ery.Async.Sound.{In, Above, Fits, WorkFits}
use async_ery.Async.Sound.Jobs.{TakenFits}
use async_ery.Async.Owed.{Waits, here, there, AnyJob, Calls, Owed, Keeping-trans}
use async_ery.Async.Owed.Tracking.{track-Keeping}
use async_ery.Async.Owed.Writes.{write-Keeping, report_any-Keeping, report_all-Keeping}
use async_ery.Async.Owed.Worlds.{
  In-more, IsNew, LinkedWorld, Preserves, Preserves-Owed, Preserves-trans, stays-Preserves,
}
use async_ery.Async.Owed.Makes.{build-Made}

pub Above-new : (n : ℕ) (t d c : Ref) → In n t → Above t d → IsNew n c → Above t c
Above-new n (source k) d c i a new = absurd a
Above-new n (cell j) d (source k) i a new = tt
Above-new n (cell j) d (cell m) i a new = omega arith

module _ {V Err : Type 0} (blank : V) (pack : List V → V) (Src : ℕ → Result V Err → Type 0)
    (User : ℕ → Result V Err → Type 0) where
  run_bind-Preserves :
      (w : World V Err) (ctx : Context) (t d : Ref) (f : V → Prog V) (r : Result V Err)
      → LinkedWorld w
      → Fits blank pack Src User w.made w.next (bind_to t d f) r
      → Preserves w (run_bind blank pack w ctx t d f r)
  unfolding run_bind
  run_bind-Preserves w ctx t d f (value v) l fit =
      let m = build-Made blank pack (f v) w l in
      let c = (build blank pack (f v) w).0 in
      let w' = (build blank pack (f v) w).1 in
      Preserves-trans {v = w'} m.preserves (
        stays-Preserves w' _ (
          track-Keeping pack w'.next w'.store t c m.preserves.linked
            (In-more w.next w'.next t m.preserves.more fit.0) m.ref_in
            (Above-new w.next t d c fit.0 fit.4 m.is_new)))
  run_bind-Preserves w ctx t d f (error e) l fit =
      let k = write-Keeping pack w.next w.store ctx d (error e) l fit.1 in
      stays-Preserves w _ (
        Keeping-trans k (
          track-Keeping pack w.next (write pack w.store ctx d (error e)) t d k.linked fit.0 fit.1
            fit.4))

  run_callback-Preserves :
      (w : World V Err) (ctx : Context) (callback : Callback V) (r : Result V Err)
      → LinkedWorld w
      → Fits blank pack Src User w.made w.next callback r
      → Preserves w (run_callback blank pack w ctx callback r)
  unfolding run_callback
  run_callback-Preserves w ctx (map_to d f) r l fit =
      stays-Preserves w _ (write-Keeping pack w.next w.store ctx d (mapped f r) l fit.0)
  run_callback-Preserves w ctx (bind_to t d f) r l fit = run_bind-Preserves w ctx t d f r l fit
  run_callback-Preserves w ctx (any_to d i) r l fit =
      stays-Preserves w _ (report_any-Keeping pack w.next w.store ctx d r l fit.0)
  run_callback-Preserves w ctx (all_to d i) r l fit =
      stays-Preserves w _ (report_all-Keeping pack w.next w.store ctx d i r l fit.0)
  run_callback-Preserves w ctx (user n) r l fit = record {
    linked = record { climbs = l.climbs; tidy = l.tidy };
    more = omega arith;
    same = λ n lt. refl;
    later = λ c i. Later-refl (w.store.cells c);
    kept = λ c callback i m. inl (here m);
    queued = λ callback q. q;
    computing = λ c v q. q;
    logged = λ e m. append-Mem e w.store.log ((n, r) ∷ []) m;
  }

  pub run_work-Preserves :
      (w : World V Err) (ctx : Context) (work : Work V Err)
      → LinkedWorld w
      → WorkFits blank pack Src User w.made w.next work
      → Preserves w (run_work blank pack w ctx work)
  unfolding run_work
  run_work-Preserves w ctx (call callback r) l fit = run_callback-Preserves w ctx callback r l fit
  run_work-Preserves w ctx (compute d v) l fit =
      stays-Preserves w _ (write-Keeping pack w.next w.store ctx d (value v) l fit.0)

  -- A callback of the client is owed, or it was called.
  abbrev pub Served : World V Err → Ref → ℕ → Type 0
  Served w c n = Owed w.store c (user n) ⊎ ((r : Result V Err) × Mem (n, r) w.store.log)

  pub Preserves-Served :
      {w w' : World V Err} (c : Ref) (n : ℕ)
      → LinkedWorld w
      → Preserves w w'
      → In w.next c
      → Served w c n
      → Served w' c n
  Preserves-Served c n l p i (inl owed) = inl (Preserves-Owed l p i owed)
  Preserves-Served c n l p i (inr (r, m)) = inr (r, p.logged (n, r) m)

  pub still-Waits :
      (s : Store V Err) (jobs : List (Job V Err)) (c : Ref) (callback : Callback V)
      → Waits s c callback
      → Waits (record s { jobs = jobs }) c callback
  still-Waits s jobs c callback (here m) = here m
  still-Waits s jobs c callback (there d e w) = there d e (still-Waits s jobs d callback w)

  -- A job that was queued is the one that was taken or one of the others.
  unfoldable pub Left :
      (Work V Err → Type 0) → Option (Job V Err × List (Job V Err)) → List (Job V Err) → Type 0
  Left P none jobs = AnyJob P jobs
  Left P (some (j, rest)) jobs = P j.work ⊎ AnyJob P rest

  pub taken-Left :
      (P : Work V Err → Type 0) (i : ℕ) (jobs : List (Job V Err))
      → AnyJob P jobs
      → Left P (take_job i jobs) jobs
  unfolding Left
  taken-Left P i [] q = absurd q
  taken-Left P zero (j ∷ jobs) q = q
  taken-Left P (suc i) (j ∷ jobs) (inl e) = at (take_job i jobs)
    where
      at :
          (o : Option (Job V Err × List (Job V Err)))
          → Left P (elim o [ none ↦ none | some (k, rest) ↦ some (k, j ∷ rest) ]) (j ∷ jobs)
      at none = inl e
      at (some (k, rest)) = inr (inl e)
  taken-Left P (suc i) (j ∷ jobs) (inr q) = at (take_job i jobs) (taken-Left P i jobs q)
    where
      at :
          (o : Option (Job V Err × List (Job V Err)))
          → Left P o jobs
          → Left P (elim o [ none ↦ none | some (k, rest) ↦ some (k, j ∷ rest) ]) (j ∷ jobs)
      at none h = inr h
      at (some (k, rest)) (inl e) = inl e
      at (some (k, rest)) (inr h) = inr (inr h)

  -- A job that calls a callback of the client logs it.
  called_now :
      (w : World V Err) (ctx : Context) (n : ℕ) (work : Work V Err)
      → Calls (user n) work
      → (r : Result V Err) × Mem (n, r) (run_work blank pack w ctx work).store.log
  unfolding run_work run_callback
  called_now w ctx n (call callback r) e = (
    r,
    subst (λ b. Mem (n, r) (run_callback blank pack w ctx b r).store.log) (sym e)
        (last-Mem (n, r) w.store.log),
  )
  called_now w ctx n (compute d v) e = absurd e

  pub run_job-Served :
      (w : World V Err) (ctx : Context) (o : Option (Job V Err × List (Job V Err)))
      → LinkedWorld w
      → TakenFits blank pack Src User w.next w.made o
      → LinkedWorld (run_job blank pack w ctx o)
        × ((c : Ref) (n : ℕ)
            → In w.next c
            → (Waits w.store c (user n) ⊎ Left (Calls (user n)) o w.store.jobs)
              ⊎ ((r : Result V Err) × Mem (n, r) w.store.log)
            → Served (run_job blank pack w ctx o) c n)
  unfolding run_job TakenFits Left
  run_job-Served w ctx none l fit = (l, λ c n i h. h)
  run_job-Served w ctx (some (j, rest)) l fit =
      let w' = record w { store = record w.store { jobs = rest } } in
      let l' : LinkedWorld w' = record { climbs = l.climbs; tidy = l.tidy } in
      let p = run_work-Preserves w' ctx j.work l' fit.0 in
      (
        p.linked,
        λ c n i h. elim h [
          | inl (inl waits) ↦
              Preserves-Served {w = w'} c n l' p i
                (inl (inl (still-Waits w.store rest c (user n) waits)))
          | inl (inr (inl e)) ↦ inr (called_now w' ctx n j.work e)
          | inl (inr (inr q)) ↦ Preserves-Served {w = w'} c n l' p i (inl (inr q))
          | inr m ↦ Preserves-Served {w = w'} c n l' p i (inr m)
        ],
      )
