-- ===== src/Async/Due/Build.antt =====
-- What all cells of a task that is built are due.
use async_ery.Base.{◌≡◌, refl, ◌∙◌, ap₂, List, All, arith}
use async_ery.Async.Program.{Prog, Progs, nil, cons}
use async_ery.Async.Store.{Ref}
use async_ery.Async.Task.{World, programs_of, build, build_all}
use async_ery.Async.Owed.Worlds.{
  less-IsNew, LinkedWorld, Preserves, Preserves-refl, Preserves-trans,
}
use async_ery.Async.Due.{task-In, IsTask, AllDue}
use async_ery.Async.Due.Effects.{carry-program, carry-IsTask}
use async_ery.Async.Due.Carry.{carry-AllDue}
use async_ery.Async.Due.Makes.{
  StillWorld, NewTask, Preserves-Carries, create-NewTask, map-NewTask, bind-NewTask,
}
use async_ery.Async.Due.Joined.{when_any-NewTask, when_all-NewTask}

module _ {V Err : Type 0} (blank : V) (pack : List V → V) where
  -- What was made in two steps.
  two_steps-AllDue :
      (u v w : World V Err)
      → LinkedWorld v
      → Preserves v w
      → StillWorld v w
      → AllDue v u.next
      → AllDue w v.next
      → AllDue w u.next
  two_steps-AllDue u v w l p still old new =
      carry-AllDue v w (Preserves-Carries v w l p still) u.next old new

  two_steps-StillWorld :
      (u v w : World V Err) → Preserves u v → StillWorld u v → StillWorld v w → StillWorld u w
  two_steps-StillWorld u v w p s s' n lt = s' n (omega (arith, p.more)) ∙ s n lt

  then :
      {q : Prog V} {c : Ref} (u v w : World V Err)
      → Preserves u v
      → StillWorld u v
      → AllDue v u.next
      → NewTask v q c w
      → NewTask u q c w
  then {c = c} u v w p still due t = record {
    made = record {
      preserves = Preserves-trans p t.made.preserves;
      ref_in = t.made.ref_in;
      is_new = less-IsNew u.next v.next c p.more t.made.is_new;
    };
    due = two_steps-AllDue u v w p.linked t.made.preserves t.still due t.due;
    still = two_steps-StillWorld u v w p still t.still;
    is_task = t.is_task;
    stands = t.stands;
  }

  record NewTasks (w : World V Err) (ps : Progs V) (cs : List Ref) (w' : World V Err) : Type 0 where
    preserves : Preserves w w'
    due : AllDue w' w.next
    still : StillWorld w w'
    are_tasks : All (IsTask w') cs
    stand : programs_of w' cs ≡ ps

  mutual
    unfolding build build_all

    pub build-NewTask :
        (p : Prog V) (w : World V Err)
        → LinkedWorld w
        → NewTask w p (build blank pack p w).0 (build blank pack p w).1
    build-NewTask (Prog.source k) w l = record {
      made = record { preserves = Preserves-refl w l; ref_in = tt; is_new = tt };
      due = λ n f i. absurd (omega arith);
      still = λ n lt. refl;
      is_task = tt;
      stands = refl;
    }
    build-NewTask (Prog.create v) w l = create-NewTask w v l
    build-NewTask (Prog.map p f) w l =
        let m = build-NewTask p w l in
        let pr = m.made.preserves in
        then w _ _ pr m.still m.due (map-NewTask blank pack _ _ p f pr.linked m.is_task m.stands)
    build-NewTask (Prog.bind p f) w l =
        let m = build-NewTask p w l in
        let pr = m.made.preserves in
        then w _ _ pr m.still m.due (bind-NewTask blank pack _ _ p f pr.linked m.is_task m.stands)
    build-NewTask (Prog.when_any ps) w l =
        let m = build_all-NewTasks ps w l in
        then w _ _ m.preserves m.still m.due
          (when_any-NewTask blank pack _ _ ps m.preserves.linked m.are_tasks m.stand)
    build-NewTask (Prog.when_all ps) w l =
        let m = build_all-NewTasks ps w l in
        then w _ _ m.preserves m.still m.due
          (when_all-NewTask blank pack _ _ ps m.preserves.linked m.are_tasks m.stand)

    build_all-NewTasks :
        (ps : Progs V) (w : World V Err)
        → LinkedWorld w
        → NewTasks w ps (build_all blank pack ps w).0 (build_all blank pack ps w).1
    build_all-NewTasks nil w l = record {
      preserves = Preserves-refl w l;
      due = λ n f i. absurd (omega arith);
      still = λ n lt. refl;
      are_tasks = tt;
      stand = refl;
    }
    build_all-NewTasks (cons p ps) w l =
        let m = build-NewTask p w l in
        let v = (build blank pack p w).1 in
        let pr = m.made.preserves in
        let ms = build_all-NewTasks ps v pr.linked in
        let u = (build_all blank pack ps v).1 in
        let k = Preserves-Carries v u pr.linked ms.preserves ms.still in
        record {
          preserves = Preserves-trans pr ms.preserves;
          due = two_steps-AllDue w v u pr.linked ms.preserves ms.still m.due ms.due;
          still = two_steps-StillWorld w v u pr m.still ms.still;
          are_tasks = (carry-IsTask v u k _ m.is_task, ms.are_tasks);
          stand =
              ap₂ (λ a b. cons a b) (carry-program v u k _ (task-In v _ m.is_task) ∙ m.stands)
                ms.stand;
        }
