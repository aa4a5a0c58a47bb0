-- ===== src/Async/Tokens/Makes.antt =====
-- Making a task leaves each report to come once.
use async_ery.Base.{
  ℕ, suc, ◌+◌, ◌≡◌, refl, sym, ◌∙◌, subst, Bool, inl, inr, true, false, List, [], ◌∷◌, length,
  total, total-append, length-replicate, arith,
}
use async_ery.Cell.WriteOnce
use async_ery.Cell.TrackingOnce
use async_ery.Cell.WhenAny
use async_ery.Cell.WhenAll
use async_ery.Scheduler.Context.{empty}
use async_ery.Async.Program.{Prog, Progs, nil, cons, how_many}
use async_ery.Async.Store.{
  Ref, cell, any_to, all_to, map_to, bind_to, once, tracking, any, all, compute, Job, Store, queue,
}
use async_ery.Async.Task.{
  World, program_of, programs_of, allocate, create, map, bind, when_any, when_all, build, build_all,
}
use async_ery.Async.Due.Counting.{counted_none}
use async_ery.Async.Due.Register.{await_any-register, await_all-register, how_many-programs_of}
use async_ery.Async.Tokens.{job_load, more-Alone}
use async_ery.Async.Tokens.Counts.{Count}
use async_ery.Async.Tokens.Steps.{Op, await-Op}
use async_ery.Async.Tokens.Worlds.{
  weight, Tight, AnyTally, AllTally, step-Tight, allocate-Tight, join-Tight,
}

none_told : (n : ℕ) (left : ℕ → Bool) → Count n 0 left (λ i. false)
none_told n left = record { spent = λ i e. absurd (cc e); number = λ fits. sym (counted_none n) }

module _ {V Err : Type 0} where
  -- Jobs that call no report.
  queue-Op :
      (w : _ → ℕ) (s : Store V Err) (jobs : List (Job V Err))
      → total (job_load w) jobs ≡ 0
      → Op w 0 s (queue s jobs)
  queue-Op w s jobs no_calls =
      let all_jobs = total-append (job_load w) s.jobs jobs in
      record {
        views = λ b. refl;
        alone = λ n le a. more-Alone w n (n + 0) (queue s jobs) (omega arith) (elim a [
          | inl (c, here, others, quiet) ↦ inl (c, here, others, omega (arith, all_jobs))
          | inr (nowhere, few) ↦ inr (nowhere, omega (arith, all_jobs))
        ]);
      }

module _ {V Err : Type 0} (blank : V) (pack : List V → V) (Src : ℕ → _ → Type 0) where
  pub create-Tight :
      (w : World V Err) (v : V) → Tight blank pack Src w → Tight blank pack Src (create w v).1
  unfolding create
  create-Tight w v t =
      let w' = allocate w (once WriteOnce.make) (Prog.create v) in
      step-Tight blank pack Src w' _
        (λ m i.
          queue-Op (weight m i) w'.store
            (record { ctx = empty; work = compute (cell w.next) v } ∷ []) refl)
        (allocate-Tight blank pack Src w (once WriteOnce.make) (Prog.create v) refl (λ l. tt) t)

  pub map-Tight :
      (w : World V Err) (c : Ref) (f : V → V)
      → Tight blank pack Src w
      → Tight blank pack Src (map blank pack w c f).1
  unfolding map
  map-Tight w c f t =
      let p = Prog.map (program_of w c) f in
      let w' = allocate w (once WriteOnce.make) p in
      step-Tight blank pack Src w' _
        (λ m i. await-Op (weight m i) pack (suc w'.next) w'.store c (map_to (cell w.next) f))
        (allocate-Tight blank pack Src w (once WriteOnce.make) p refl (λ l. tt) t)

  pub bind-Tight :
      (w : World V Err) (c : Ref) (f : V → Prog V)
      → Tight blank pack Src w
      → Tight blank pack Src (bind blank pack w c f).1
  unfolding bind
  bind-Tight w c f t =
      let p = Prog.bind (program_of w c) f in
      let w1 = allocate w (tracking TrackingOnce.make) p in
      let w' = allocate w1 (once WriteOnce.make) p in
      step-Tight blank pack Src w' _
        (λ m i.
          await-Op (weight m i) pack (suc w'.next) w'.store c
            (bind_to (cell w.next) (cell (suc w.next)) f))
        (allocate-Tight blank pack Src w1 (once WriteOnce.make) p refl (λ l. tt)
          (allocate-Tight blank pack Src w (tracking TrackingOnce.make) p refl (λ l. tt) t))

  pub when_any-Tight :
      (w : World V Err) (cs : List Ref)
      → Tight blank pack Src w
      → Tight blank pack Src (when_any blank pack w cs).1
  unfolding when_any WhenAny.make
  when_any-Tight w cs t =
      let ps = programs_of w cs in
      let p = Prog.when_any ps in
      let x = any (WhenAny.make (length cs)) in
      let w' = allocate w x p in
      let start : AnyTally blank pack Src ps (λ i. true)
          (WhenAny.make {C = Unit} {T = V} {Err = Err} (length cs)).exe_ctx =
        record {
          total = sym (how_many-programs_of pack w cs);
          told = λ i. false;
          count = none_told (how_many ps) (λ i. true);
          fails = λ i lt e. absurd (cc e);
        } in
      subst (λ s. Tight blank pack Src (record w' { store = s }))
        (sym (await_any-register pack blank (suc w'.next) w'.store 0 cs (cell w.next)))
        (join-Tight blank pack Src w x p (suc w'.next) cs (any_to (cell w.next)) refl
          (λ m i k. refl) start t)

  pub when_all-Tight :
      (w : World V Err) (cs : List Ref)
      → Tight blank pack Src w
      → Tight blank pack Src (when_all blank pack w cs).1
  unfolding when_all WhenAll.make
  when_all-Tight w cs t =
      let ps = programs_of w cs in
      let p = Prog.when_all ps in
      let x = all (WhenAll.make blank (length cs)) in
      let w' = allocate w x p in
      let many = how_many-programs_of pack w cs in
      let start : AllTally blank pack Src ps (λ i. true)
          (WhenAll.make {C = Unit} {T = V} {Err = Err} blank (length cs)).execution_context =
        record {
          total = sym many;
          room = length-replicate (length cs) blank ∙ sym many;
          told = λ i. false;
          count = none_told (how_many ps) (λ i. true);
          gives = λ i lt e. absurd (cc e);
        } in
      subst (λ s. Tight blank pack Src (record w' { store = s }))
        (sym (await_all-register pack blank (suc w'.next) w'.store 0 cs (cell w.next)))
        (join-Tight blank pack Src w x p (suc w'.next) cs (all_to (cell w.next)) refl
          (λ m i k. refl) start t)

  mutual
    unfolding build build_all

    pub build-Tight :
        (p : Prog V) (w : World V Err)
        → Tight blank pack Src w
        → Tight blank pack Src (build blank pack p w).1
    build-Tight (Prog.source k) w t = t
    build-Tight (Prog.create v) w t = create-Tight w v t
    build-Tight (Prog.map p f) w t = map-Tight _ _ f (build-Tight p w t)
    build-Tight (Prog.bind p f) w t = bind-Tight _ _ f (build-Tight p w t)
    build-Tight (Prog.when_any ps) w t = when_any-Tight _ _ (build_all-Tight ps w t)
    build-Tight (Prog.when_all ps) w t = when_all-Tight _ _ (build_all-Tight ps w t)

    build_all-Tight :
        (ps : Progs V) (w : World V Err)
        → Tight blank pack Src w
        → Tight blank pack Src (build_all blank pack ps w).1
    build_all-Tight nil w t = t
    build_all-Tight (cons p ps) w t = build_all-Tight ps _ (build-Tight p w t)
