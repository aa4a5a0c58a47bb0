-- ===== src/Async/Due/Makes.antt =====
-- What the cells of a task that was just made are due.
use async_ery.Base.{
  dec_lt, ℕ, suc, ◌≡◌, ◌<◌, inl, inr, refl, sym, ◌∙◌, ap, subst, none, List, arith,
}
use mathlib.Core.Option.{none-ne-some}
use async_ery.Cell.WriteOnce
use async_ery.Cell.TrackingOnce
use async_ery.Async.Program.{Prog}
use async_ery.Async.Store.{Ref, source, cell, map_to, bind_to, ICell, once, tracking, Store, put}
use async_ery.Async.Task.{World, program_of, allocate, create, map, bind}
use async_ery.Async.Task
use async_ery.Async.Later.{write_once, follower, kind, follows}
use async_ery.Async.Sound.Worlds.{made_here}
use async_ery.Async.Owed.{Keeping, Computes, append-AnyJob}
use async_ery.Async.Owed.Change.{enough, put_here}
use async_ery.Async.Owed.Await.{await-Awaited}
use async_ery.Async.Owed.Worlds.{
  In-more, other_ref, LinkedWorld, Preserves, Preserves-Owed, allocate-Preserves,
}
use async_ery.Async.Owed.Makes.{Made, create-Made, map-Made, bind-Made}
use async_ery.Async.Due.{task-In, IsTaskCell, IsTask, Due, AllDue}
use async_ery.Async.Due.Effects.{Tracked, Carries, carry-program, carry-IsTask}
use async_ery.Async.Due.Links.{await-Still}

module _ {V Err : Type 0} where
  abbrev pub StillWorld : World V Err → World V Err → Type 0
  StillWorld w w' =
      (n : ℕ) → n < w.next → follows (w'.store.cells (cell n)) ≡ follows (w.store.cells (cell n))

  -- A task of this expression was made.
  pub record NewTask (w : World V Err) (p : Prog V) (c : Ref) (w' : World V Err) : Type 0 where
    pub made : Made w c w'
    pub due : AllDue w' w.next
    pub still : StillWorld w w'
    pub is_task : IsTask w' c
    pub stands : program_of w' c ≡ p

  -- A step that calls nothing.
  pub silent-Carries :
      (w w' : World V Err)
      → LinkedWorld w
      → Preserves w w'
      → Tracked w w'
      → Carries w w' (λ callback. ⊥) (λ c v. ⊥)
  silent-Carries w w' l p tracked = record {
    more = p.more;
    same = p.same;
    later = p.later;
    owed = λ c callback i o. inl (Preserves-Owed l p i o);
    computing = λ c v q. inl (p.computing c v q);
    compute_done = λ c v made. absurd made;
    effect = λ callback ran. absurd ran;
    tracked = tracked;
    any_once = λ c i j ran. absurd ran;
    all_once = λ c i j ran. absurd ran;
  }

  pub still-Tracked : (w w' : World V Err) → StillWorld w w' → Tracked w w'
  still-Tracked w w' still n q f d i m e g = inl (sym (still n i) ∙ g)

  pub Preserves-Carries :
      (w w' : World V Err)
      → LinkedWorld w
      → Preserves w w'
      → StillWorld w w'
      → Carries w w' (λ callback. ⊥) (λ c v. ⊥)
  Preserves-Carries w w' l p still = silent-Carries w w' l p (still-Tracked w w' still)

  -- What is a task stays one when cells change.
  pub stays-IsTask :
      (w : World V Err) (s : Store V Err)
      → Keeping w.next w.store s
      → (c : Ref) → IsTask w c
      → IsTask (record w { store = s }) c
  stays-IsTask w s k (source n) t = tt
  stays-IsTask w s k (cell n) t =
      (t.0, subst (IsTaskCell (w.made n)) (sym (k.later (cell n) t.0).same_kind) t.1)

  pub allocate-StillWorld :
      (w : World V Err) (x : ICell V Err) (p : Prog V) → StillWorld w (allocate w x p)
  allocate-StillWorld w x p n lt = rw (other_ref w.next (cell n) lt) refl

  -- The kind of the new cell, after callbacks were registered.
  pub new_kind :
      (w : World V Err) (x : ICell V Err) (s : Store V Err)
      → Keeping (suc w.next) (put w.store (cell w.next) x) s
      → kind (s.cells (cell w.next)) ≡ kind x
  new_kind w x s k =
      (k.later (cell w.next) (omega arith)).same_kind ∙ ap kind (put_here w.store (cell w.next) x)

  pub only_new :
      (w w' : World V Err) (p : Prog V)
      → w'.next ≡ suc w.next
      → w'.made w.next ≡ p
      → Due w' (cell w.next) (w'.store.cells (cell w.next)) p
      → AllDue w' w.next
  only_new w w' p one e x n f i =
      let same : w.next ≡ n = omega (arith, one) in
      subst (λ m. Due w' (cell m) (w'.store.cells (cell m)) (w'.made m)) same
        (subst (Due w' (cell w.next) (w'.store.cells (cell w.next))) (sym e) x)

  pub create-NewTask :
      (w : World V Err) (v : V)
      → LinkedWorld w
      → NewTask w (Prog.create v) (create w v).0 (create w v).1
  unfolding create
  create-NewTask w v l =
      let x = once WriteOnce.make in
      let w' = (create w v).1 in
      let e = made_here w x (Prog.create v) in
      record {
        made = create-Made w v l;
        due = only_new w w' (Prog.create v) refl e (
          ap kind (put_here w.store (cell w.next) x),
          inr (append-AnyJob (Computes (cell w.next) v) w.store.jobs _ (inr (inl (refl, refl)))),
        );
        still = allocate-StillWorld w x (Prog.create v);
        is_task = (
          omega arith,
          subst (λ a. IsTaskCell a (kind (w'.store.cells (cell w.next)))) (sym e) tt,
        );
        stands = e;
      }

  module _ (blank : V) (pack : List V → V) where
    pub map-NewTask :
        (w : World V Err) (c : Ref) (p : Prog V) (f : V → V)
        → LinkedWorld w
        → IsTask w c
        → program_of w c ≡ p
        → NewTask w (Prog.map p f) (map blank pack w c f).0 (map blank pack w c f).1
    unfolding map Task.await
    map-NewTask w c p f l t stands =
        let i = w.next in
        let q = Prog.map (program_of w c) f in
        let x = once WriteOnce.make in
        let w1 = allocate w x q in
        let w' = (map blank pack w c f).1 in
        let e : w'.made i ≡ q = made_here w x q in
        let m = map-Made blank pack w c f l (task-In w c t) in
        let p1 = allocate-Preserves w x q l (λ d f. none-ne-some d f) (λ r f. refl) in
        let a =
          await-Awaited pack w1.next (suc w1.next) w1.store c (map_to (cell i) f) p1.linked
            (In-more w.next w1.next c (omega arith) (task-In w c t)) (enough w1.next c) in
        let still : StillWorld w w' = λ n lt.
          await-Still pack (suc w1.next) w1.store c (map_to (cell i) f) (cell n)
          ∙ allocate-StillWorld w x q n lt in
        let k = Preserves-Carries w w' l m.preserves still in
        record {
          made = m;
          due = only_new w w' q refl e (
            new_kind w x w'.store a.0,
            inr (c, carry-IsTask w w' k c t, carry-program w w' k c (task-In w c t), a.1),
          );
          still = still;
          is_task =
              (omega arith, subst (λ a. IsTaskCell a (kind (w'.store.cells (cell i)))) (sym e) tt);
          stands = e ∙ ap (λ a. Prog.map a f) stands;
        }

    pub bind-NewTask :
        (w : World V Err) (c : Ref) (p : Prog V) (f : V → Prog V)
        → LinkedWorld w
        → IsTask w c
        → program_of w c ≡ p
        → NewTask w (Prog.bind p f) (bind blank pack w c f).0 (bind blank pack w c f).1
    unfolding bind Task.await
    bind-NewTask w c p f l t stands =
        let i = w.next in
        let q = Prog.bind (program_of w c) f in
        let x = tracking TrackingOnce.make in
        let y = once WriteOnce.make in
        let w1 = allocate w x q in
        let w2 = allocate w1 y q in
        let w' = (bind blank pack w c f).1 in
        let callback = bind_to (cell i) (cell (suc i)) f in
        let p1 = allocate-Preserves w x q l (λ d f. none-ne-some d f) (λ d f. refl) in
        let p2 = allocate-Preserves w1 y q p1.linked (λ d f. none-ne-some d f) (λ r f. refl) in
        let e : w'.made i ≡ q = p2.same i (omega arith) ∙ made_here w x q in
        let e' : w'.made (suc i) ≡ q = made_here w1 y q in
        let m = bind-Made blank pack w c f l (task-In w c t) in
        let a =
          await-Awaited pack w2.next (suc w2.next) w2.store c callback p2.linked
            (In-more w.next w2.next c (omega arith) (task-In w c t)) (enough w2.next c) in
        let since = await-Still pack (suc w2.next) w2.store c callback in
        let still : StillWorld w w' = λ n lt.
          since (cell n)
          ∙ allocate-StillWorld w1 y q n (omega arith)
          ∙ allocate-StillWorld w x q n lt in
        let k = Preserves-Carries w w' l m.preserves still in
        let kind_here : kind (w'.store.cells (cell i)) ≡ follower =
          (a.0.later (cell i) (omega arith)).same_kind
          ∙ (p2.later (cell i) (omega arith)).same_kind
          ∙ ap kind (put_here w.store (cell i) x) in
        let kind_next : kind (w'.store.cells (cell (suc i))) ≡ write_once =
          new_kind w1 y w'.store a.0 in
        let alone : follows (w'.store.cells (cell i)) ≡ none =
          since (cell i)
          ∙ allocate-StillWorld w1 y q i (omega arith)
          ∙ ap follows (put_here w.store (cell i) x) in
        let first : Due w' (cell i) (w'.store.cells (cell i)) (w'.made i) =
          subst (Due w' (cell i) (w'.store.cells (cell i))) (sym e) (
            inr record {
              same_kind = kind_here;
              error_in = omega arith;
              error_kind = kind_next;
              target = λ d g. absurd (none-ne-some d (sym alone ∙ g));
              next_step =
                  inr (c, carry-IsTask w w' k c t, carry-program w w' k c (task-In w c t), a.1);
            }) in
        let second : Due w' (cell (suc i)) (w'.store.cells (cell (suc i))) (w'.made (suc i)) =
          subst (Due w' (cell (suc i)) (w'.store.cells (cell (suc i)))) (sym e') (inl kind_next) in
        record {
          made = m;
          due = λ n f j. elim (dec_lt i n) [
            | yes lt ↦
                subst (λ a. Due w' (cell a) (w'.store.cells (cell a)) (w'.made a)) (omega arith)
                  second
            | no ge ↦
                subst (λ a. Due w' (cell a) (w'.store.cells (cell a)) (w'.made a)) (omega arith)
                  first
          ];
          still = still;
          is_task = (
            omega arith,
            subst (λ a. IsTaskCell a (kind (w'.store.cells (cell i)))) (sym e) kind_here,
          );
          stands = e ∙ ap (λ a. Prog.bind a f) stands;
        }
