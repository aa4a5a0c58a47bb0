-- ===== src/Async/Due/Jobs.antt =====
-- What the job of a worker does to what cells are due.
use async_ery.Base.{
  ℕ, suc, ◌≡◌, ◌<◌, ◌⊎◌, inl, inr, refl, sym, ◌∙◌, ap, subst, true, Option, none, some, List, arith,
}
use async_ery.Cell.Result.{Result, value, error}
use async_ery.Scheduler.Context.{Context}
use async_ery.Async.Program.{Prog, mapped}
use async_ery.Async.Store.{
  Ref, cell, Callback, map_to, bind_to, any_to, all_to, user, Work, call, compute, Job, Store,
  write, track,
}
use async_ery.Async.Task.{World, program_of, build, run_bind, run_callback, run_work}
use async_ery.Async.Run.{run_job}
use async_ery.Async.Later.{write_once, kind, follows, valued}
use async_ery.Async.Sound.{In, after, Fits, WorkFits}
use async_ery.Async.Sound.Jobs.{TakenFits}
use async_ery.Async.Owed.{Calls, Computes, AnyJob}
use async_ery.Async.Owed.Writes.{write-Keeping}
use async_ery.Async.Owed.Tracking.{track-Keeping}
use async_ery.Async.Owed.Worlds.{In-more, LinkedWorld, Preserves, Preserves-Owed, stays-Preserves}
use async_ery.Async.Owed.Jobs.{Above-new, run_work-Preserves, Left, still-Waits}
use async_ery.Async.Due.{IsTask, Target, AllDue}
use async_ery.Async.Due.Effects.{Tracked, Carries}
use async_ery.Async.Due.Carry.{carry-AllDue}
use async_ery.Async.Due.Links.{
  Still, write-Still, report_any-Still, report_all-Still, track-Tracks, track-follows,
}
use async_ery.Async.Due.Makes.{still-Tracked, silent-Carries, stays-IsTask}
use async_ery.Async.Due.Build.{build-NewTask}
use async_ery.Async.Due.Runs.{
  same_function, write-valued, report_any-Counts, report_all-Counts, WorkEffect, call-Effect,
  compute_effect, one_place,
}

module _ {V Err : Type 0} (blank : V) (pack : List V → V) (Src : ℕ → Result V Err → Type 0)
    (User : ℕ → Result V Err → Type 0) where
  -- The job that was taken from the queue has run.
  ran-Carries :
      (w : World V Err) (rest : List (Job V Err)) (work : Work V Err) (w' : World V Err)
      → let w1 = record w { store = record w.store { jobs = rest } } in
        LinkedWorld w1
        → Preserves w1 w'
        → ((P : Work V Err → Type 0) → AnyJob P w.store.jobs → P work ⊎ AnyJob P rest)
        → Tracked w1 w'
        → WorkEffect w1 w' work
        → Carries w w' (λ callback. Calls callback work) (λ c v. Computes c v work)
  ran-Carries w rest work w' l p split tracked x =
      let w1 = record w { store = record w.store { jobs = rest } } in
      record {
        more = p.more;
        same = p.same;
        later = p.later;
        owed = λ c callback i o. elim o [
          | inl waits ↦ inl (
              Preserves-Owed {w = w1} l p i
                (inl (still-Waits blank pack Src User w.store rest c callback waits)))
          | inr q ↦ elim (split (Calls callback) q) [
            | inl e ↦ inr e
            | inr q' ↦ inl (inr (p.queued callback q'))
          ]
        ];
        computing = λ c v q. elim (split (Computes c v) q) [
          | inl e ↦ inr e
          | inr q' ↦ inl (p.computing c v q')
        ];
        compute_done = λ c v made. compute_effect w1 w' work c v made x;
        effect = λ callback ran. call-Effect w1 w' work callback ran x;
        tracked = tracked;
        any_once = λ c i j e f. one_place work (any_to c i) (any_to c j) e f;
        all_once = λ c i j e f. one_place work (all_to c i) (all_to c j) e f;
      }

  -- What a job leaves: the cell that it is for, what cells track, and new cells that are due.
  record Outcome (w : World V Err) (work : Work V Err) (w' : World V Err) : Type 0 where
    tracked : Tracked w w'
    effect : WorkEffect w w' work
    due : AllDue w' w.next

  -- A job that allocates nothing and tracks nothing.
  quiet_outcome :
      (w : World V Err) (work : Work V Err) (s : Store V Err)
      → Still w.store s
      → WorkEffect w (record w { store = s }) work
      → Outcome w work (record w { store = s })
  quiet_outcome w work s still x = record {
    tracked = still-Tracked w (record w { store = s }) (λ n lt. still (cell n));
    effect = x;
    due = λ n f i. absurd (omega arith);
  }

  run_bind-Outcome :
      (w : World V Err) (ctx : Context) (t d : Ref) (f : V → Prog V) (r : Result V Err)
      → LinkedWorld w
      → Fits blank pack Src User w.made w.next (bind_to t d f) r
      → Outcome w (call (bind_to t d f) r) (run_bind blank pack w ctx t d f r)
  unfolding run_bind
  run_bind-Outcome w ctx t d f (value v) l fit =
      let b = build-NewTask blank pack (f v) w l in
      let m = b.made in
      let c = (build blank pack (f v) w).0 in
      let w1 = (build blank pack (f v) w).1 in
      let s = track pack (suc w1.next) w1.store t c in
      let w2 = record w1 { store = s } in
      let i = In-more w.next w1.next t m.preserves.more fit.0 in
      let k =
        track-Keeping pack w1.next w1.store t c m.preserves.linked i m.ref_in
          (Above-new w.next t d c fit.0 fit.4 m.is_new) in
      let task : IsTask w2 c = stays-IsTask w1 s k c b.is_task in
      let links = track-Tracks pack (suc w1.next) w1.store t c in
      let tracked_here : (n : ℕ) (q : Prog V) (g : V → Prog V) (e : Ref)
          → n < w.next
          → w.made n ≡ Prog.bind q g
          → follows (s.cells (cell n)) ≡ some e
          → (follows (w1.store.cells (cell n)) ≡ some e) ⊎ Target w2 g e =
        λ n q g e lt made h. elim (links (cell n) e h) [
          | inl old ↦ inl old
          | inr (at, new) ↦
              let same : f ≡ g = same_function (sym fit.5.1 ∙ ap (program_of w) at ∙ made) in
              inr (
                inl (
                  subst (IsTask w2) new task,
                  (v, ap (program_of w1) (sym new) ∙ b.stands ∙ ap (λ h. h v) same),
                ))
        ] in
      let step_tracked : Tracked w1 w2 = λ n q g e lt made kind_next h. elim (links (cell n) e h) [
        | inl old ↦ inl old
        | inr (at, new) ↦
            let old_n : n < w.next = subst (In w.next) at fit.0 in
            tracked_here n q g e old_n (sym (m.preserves.same n old_n) ∙ made) h
      ] in
      record {
        tracked = λ n q g e lt made kind_next h. elim (tracked_here n q g e lt made h) [
          | inl old ↦ inl (sym (b.still n lt) ∙ old)
          | inr new ↦ inr new
        ];
        effect = λ j e.
            track-follows pack (suc w1.next) w1.store t c
              ((m.preserves.later t fit.0).same_kind ∙ e);
        due =
            carry-AllDue w1 w2
              (silent-Carries w1 w2 m.preserves.linked (stays-Preserves w1 s k) step_tracked) w.next
              b.due (λ n f i. absurd (omega arith));
      }
  run_bind-Outcome w ctx t d f (error e) l fit =
      let s1 = write pack w.store ctx d (error e) in
      let k1 = write-Keeping pack w.next w.store ctx d (error e) l fit.1 in
      let k2 = track-Keeping pack w.next s1 t d k1.linked fit.0 fit.1 fit.4 in
      let s2 = track pack (suc w.next) s1 t d in
      let links = track-Tracks pack (suc w.next) s1 t d in
      record {
        tracked = λ n q g a lt made kind_next h. elim (links (cell n) a h) [
          | inl old ↦ inl (sym (write-Still pack w.store ctx d (error e) (cell n)) ∙ old)
          | inr (at, new) ↦
              let here : d ≡ cell (suc n) = fit.6 ∙ ap after at in
              let kind_d : kind (w.store.cells d) ≡ write_once =
                subst (λ b. kind (w.store.cells b) ≡ write_once) (sym here) kind_next in
              inr (
                inr (
                  subst (In w.next) new fit.1,
                  subst (λ b. valued (s2.cells b) ≡ true) new
                      ((k2.later d fit.1).stays (write-valued pack w.store ctx d (error e) kind_d)),
                ))
        ];
        effect = λ j a. track-follows pack (suc w.next) s1 t d ((k1.later t fit.0).same_kind ∙ a);
        due = λ n f i. absurd (omega arith);
      }

  run_callback-Outcome :
      (w : World V Err) (ctx : Context) (callback : Callback V) (r : Result V Err)
      → LinkedWorld w
      → Fits blank pack Src User w.made w.next callback r
      → Outcome w (call callback r) (run_callback blank pack w ctx callback r)
  unfolding run_callback
  run_callback-Outcome w ctx (map_to d f) r l fit =
      quiet_outcome w _ _ (write-Still pack w.store ctx d (mapped f r))
        (λ i e. write-valued pack w.store ctx d (mapped f r) e)
  run_callback-Outcome w ctx (bind_to t d f) r l fit = run_bind-Outcome w ctx t d f r l fit
  run_callback-Outcome w ctx (any_to d j) r l fit =
      quiet_outcome w _ _ (report_any-Still pack w.store ctx d r)
        (λ i e. report_any-Counts pack w.store ctx d r e)
  run_callback-Outcome w ctx (all_to d j) r l fit =
      quiet_outcome w _ _ (report_all-Still pack w.store ctx d j r)
        (λ i e. report_all-Counts pack w.store ctx d j r e)
  run_callback-Outcome w ctx (user n) r l fit = quiet_outcome w _ _ (λ b. refl) tt

  run_work-Outcome :
      (w : World V Err) (ctx : Context) (work : Work V Err)
      → LinkedWorld w
      → WorkFits blank pack Src User w.made w.next work
      → Outcome w work (run_work blank pack w ctx work)
  unfolding run_work
  run_work-Outcome w ctx (call callback r) l fit = run_callback-Outcome w ctx callback r l fit
  run_work-Outcome w ctx (compute d v) l fit =
      quiet_outcome w _ _ (write-Still pack w.store ctx d (value v))
        (λ i e. write-valued pack w.store ctx d (value v) e)

  -- All cells are due after a job as they were before it.
  pub run_job-AllDue :
      (w : World V Err) (ctx : Context) (o : Option (Job V Err × List (Job V Err)))
      → LinkedWorld w
      → TakenFits blank pack Src User w.next w.made o
      → ((P : Work V Err → Type 0)
          → AnyJob P w.store.jobs
          → Left blank pack Src User P o w.store.jobs)
      → AllDue w 0
      → AllDue (run_job blank pack w ctx o) 0
  unfolding run_job TakenFits Left
  run_job-AllDue w ctx none l fit split due = due
  run_job-AllDue w ctx (some (j, rest)) l fit split due =
      let w1 = record w { store = record w.store { jobs = rest } } in
      let l1 : LinkedWorld w1 = record { climbs = l.climbs; tidy = l.tidy } in
      let p = run_work-Preserves blank pack Src User w1 ctx j.work l1 fit.0 in
      let x = run_work-Outcome w1 ctx j.work l1 fit.0 in
      let w' = run_work blank pack w1 ctx j.work in
      carry-AllDue w w' (ran-Carries w rest j.work w' l1 p split x.tracked x.effect) 0 due x.due
