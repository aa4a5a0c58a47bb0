-- ===== src/Async/Owed/Makes.antt =====
-- Making the task of an expression loses no callback.
use async_ery.Base.{ℕ, suc, ◌+◌, inl, refl, List, [], ◌∷◌, All, length, arith}
use mathlib.Core.Option.{none-ne-some}
use async_ery.Cell.WriteOnce
use async_ery.Cell.TrackingOnce
use async_ery.Cell.WhenAny
use async_ery.Cell.WhenAll
use async_ery.Async.Program.{Prog, Progs, nil, cons}
use async_ery.Async.Store.{
  Ref, cell, map_to, bind_to, any_to, all_to, once, tracking, any, all, Job, Store, queue, await,
}
use async_ery.Async.Task.{
  World, program_of, programs_of, allocate, create, map, bind, when_any, when_all, await_any,
  await_all, build, build_all,
}
use async_ery.Async.Task
use async_ery.Async.Later.{Later-refl}
use async_ery.Async.Sound.{In}
use async_ery.Async.Owed.{
  here, Linked, Keeping, Keeping-refl, Keeping-trans, append-AnyJob, Calls, Computes,
}
use async_ery.Async.Owed.Change.{enough, queue_links}
use async_ery.Async.Owed.Await.{await-Awaited}
use async_ery.Async.Owed.Worlds.{
  In-more, All-In_more, IsNew, less-IsNew, LinkedWorld, Preserves, Preserves-refl, Preserves-trans,
  stays-Preserves, allocate-Preserves,
}

module _ {V Err : Type 0} where
  -- A task was made, whose cell is new.
  pub record Made (w : World V Err) (c : Ref) (w' : World V Err) : Type 0 where
    pub preserves : Preserves w w'
    pub ref_in : In w'.next c
    pub is_new : IsNew w.next c

  record MadeAll (w : World V Err) (cs : List Ref) (w' : World V Err) : Type 0 where
    preserves : Preserves w w'
    refs_in : All (In w'.next) cs

  queue-Keeping :
      (next : ℕ) (s : Store V Err) (jobs : List (Job V Err))
      → Linked next s
      → Keeping next s (queue s jobs)
  queue-Keeping next s jobs l = record {
    linked = queue_links next s jobs l;
    later = λ c i. Later-refl (s.cells c);
    kept = λ c callback i m. inl (here m);
    queued = λ callback q. append-AnyJob (Calls callback) s.jobs jobs (inl q);
    computing = λ c v q. append-AnyJob (Computes c v) s.jobs jobs (inl q);
    log_same = refl;
  }

  pub create-Made : (w : World V Err) (v : V) → LinkedWorld w → Made w (create w v).0 (create w v).1
  unfolding create
  create-Made w v l =
      let w' = allocate w (once WriteOnce.make) (Prog.create v) in
      let p =
        allocate-Preserves w (once WriteOnce.make) (Prog.create v) l (λ d e. none-ne-some d e)
          (λ r e. refl) in
      record {
        preserves =
            Preserves-trans {v = w'} p
              (stays-Preserves w' _ (queue-Keeping w'.next w'.store _ p.linked));
        ref_in = omega arith;
        is_new = omega arith;
      }

  module _ (blank : V) (pack : List V → V) where
    pub map-Made :
        (w : World V Err) (c : Ref) (f : V → V)
        → LinkedWorld w
        → In w.next c
        → Made w (map blank pack w c f).0 (map blank pack w c f).1
    unfolding map Task.await
    map-Made w c f l i =
        let q = Prog.map (program_of w c) f in
        let w' = allocate w (once WriteOnce.make) q in
        let p =
          allocate-Preserves w (once WriteOnce.make) q l (λ d e. none-ne-some d e) (λ r e. refl) in
        record {
          preserves = Preserves-trans {v = w'} p (
              stays-Preserves w' _
                (await-Awaited pack w'.next (suc w'.next) w'.store c (map_to (cell w.next) f)
                  p.linked (In-more w.next w'.next c (omega arith) i) (enough w'.next c)).0);
          ref_in = omega arith;
          is_new = omega arith;
        }

    pub bind-Made :
        (w : World V Err) (c : Ref) (f : V → Prog V)
        → LinkedWorld w
        → In w.next c
        → Made w (bind blank pack w c f).0 (bind blank pack w c f).1
    unfolding bind Task.await
    bind-Made w c f l i =
        let q = Prog.bind (program_of w c) f in
        let w1 = allocate w (tracking TrackingOnce.make) q in
        let w2 = allocate w1 (once WriteOnce.make) q in
        let p1 =
          allocate-Preserves w (tracking TrackingOnce.make) q l (λ d e. none-ne-some d e)
            (λ d e. refl) in
        let p2 =
          allocate-Preserves w1 (once WriteOnce.make) q p1.linked (λ d e. none-ne-some d e)
            (λ r e. refl) in
        record {
          preserves = Preserves-trans {v = w2} (Preserves-trans {v = w1} p1 p2) (
              stays-Preserves w2 _
                (await-Awaited pack w2.next (suc w2.next) w2.store c
                  (bind_to (cell w.next) (cell (suc w.next)) f) p2.linked
                  (In-more w.next w2.next c (omega arith) i) (enough w2.next c)).0);
          ref_in = omega arith;
          is_new = omega arith;
        }

    -- The loops of the two constructors.
    await_any-Keeping :
        (next : ℕ) (s : Store V Err) (n : ℕ) (cs : List Ref) (d : Ref)
        → Linked next s
        → All (In next) cs
        → Keeping next s (await_any blank pack (suc next) s n cs d)
    unfolding await_any
    await_any-Keeping next s n [] d l i = Keeping-refl next s l
    await_any-Keeping next s n (c ∷ cs) d l i =
        let k = (await-Awaited pack next (suc next) s c (any_to d n) l i.0 (enough next c)).0 in
        Keeping-trans k (
          await_any-Keeping next (await pack (suc next) s c (any_to d n)) (n + 1) cs d k.linked i.1)

    await_all-Keeping :
        (next : ℕ) (s : Store V Err) (j : ℕ) (cs : List Ref) (d : Ref)
        → Linked next s
        → All (In next) cs
        → Keeping next s (await_all blank pack (suc next) s j cs d)
    unfolding await_all
    await_all-Keeping next s j [] d l i = Keeping-refl next s l
    await_all-Keeping next s j (c ∷ cs) d l i =
        let k = (await-Awaited pack next (suc next) s c (all_to d j) l i.0 (enough next c)).0 in
        Keeping-trans k (
          await_all-Keeping next (await pack (suc next) s c (all_to d j)) (j + 1) cs d k.linked i.1)

    pub when_any-Made :
        (w : World V Err) (cs : List Ref)
        → LinkedWorld w
        → All (In w.next) cs
        → Made w (when_any blank pack w cs).0 (when_any blank pack w cs).1
    unfolding when_any WhenAny.make
    when_any-Made w cs l i =
        let q = Prog.when_any (programs_of w cs) in
        let x = any (WhenAny.make (length cs)) in
        let w' = allocate w x q in
        let p = allocate-Preserves w x q l (λ d e. none-ne-some d e) (λ r e. refl) in
        record {
          preserves = Preserves-trans {v = w'} p (
              stays-Preserves w' _ (
                await_any-Keeping w'.next w'.store 0 cs (cell w.next) p.linked
                  (All-In_more w.next w'.next cs (omega arith) i)));
          ref_in = omega arith;
          is_new = omega arith;
        }

    pub when_all-Made :
        (w : World V Err) (cs : List Ref)
        → LinkedWorld w
        → All (In w.next) cs
        → Made w (when_all blank pack w cs).0 (when_all blank pack w cs).1
    unfolding when_all WhenAll.make
    when_all-Made w cs l i =
        let q = Prog.when_all (programs_of w cs) in
        let x = all (WhenAll.make blank (length cs)) in
        let w' = allocate w x q in
        let p = allocate-Preserves w x q l (λ d e. none-ne-some d e) (λ r e. refl) in
        record {
          preserves = Preserves-trans {v = w'} p (
              stays-Preserves w' _ (
                await_all-Keeping w'.next w'.store 0 cs (cell w.next) p.linked
                  (All-In_more w.next w'.next cs (omega arith) i)));
          ref_in = omega arith;
          is_new = omega arith;
        }

    then :
        {u w : World V Err} {c : Ref} {w' : World V Err} → Preserves u w → Made w c w' → Made u c w'
    then {u = u} {w = w} {c = c} p m = record {
      preserves = Preserves-trans p m.preserves;
      ref_in = m.ref_in;
      is_new = less-IsNew u.next w.next c p.more m.is_new;
    }

    mutual
      unfolding build build_all

      pub build-Made :
          (p : Prog V) (w : World V Err)
          → LinkedWorld w
          → Made w (build blank pack p w).0 (build blank pack p w).1
      build-Made (Prog.source k) w l = record {
        preserves = Preserves-refl w l;
        ref_in = tt;
        is_new = tt;
      }
      build-Made (Prog.create v) w l = create-Made w v l
      build-Made (Prog.map p f) w l =
          let m = build-Made p w l in then m.preserves (map-Made _ _ f m.preserves.linked m.ref_in)
      build-Made (Prog.bind p f) w l =
          let m = build-Made p w l in then m.preserves (bind-Made _ _ f m.preserves.linked m.ref_in)
      build-Made (Prog.when_any ps) w l =
          let m = build_all-Made ps w l in
          then m.preserves (when_any-Made _ _ m.preserves.linked m.refs_in)
      build-Made (Prog.when_all ps) w l =
          let m = build_all-Made ps w l in
          then m.preserves (when_all-Made _ _ m.preserves.linked m.refs_in)

      build_all-Made :
          (ps : Progs V) (w : World V Err)
          → LinkedWorld w
          → MadeAll w (build_all blank pack ps w).0 (build_all blank pack ps w).1
      build_all-Made nil w l = record { preserves = Preserves-refl w l; refs_in = tt }
      build_all-Made (cons p ps) w l =
          let m = build-Made p w l in
          let ms = build_all-Made ps _ m.preserves.linked in
          record {
            preserves = Preserves-trans m.preserves ms.preserves;
            refs_in = (In-more _ _ _ ms.preserves.more m.ref_in, ms.refs_in);
          }
