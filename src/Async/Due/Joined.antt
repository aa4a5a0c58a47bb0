-- ===== src/Async/Due/Joined.antt =====
-- What the cells of joined tasks are due, when they were just made.
use async_ery.Base.{
  ℕ, suc, ◌≡◌, ◌⊎◌, inl, inr, refl, sym, ◌∙◌, ap, subst, Bool-cases, true, false, List, [], ◌∷◌,
  All, length, arith,
}
use mathlib.Core.Option.{none-ne-some}
use async_ery.Cell.WhenAny
use async_ery.Cell.WhenAll
use async_ery.Async.Program.{Prog, Progs}
use async_ery.Async.Store.{Ref, cell, Callback, any_to, all_to, ICell, any, all}
use async_ery.Async.Task.{World, programs_of, allocate, when_any, when_all}
use async_ery.Async.Later.{kind, valued, heard, expected}
use async_ery.Async.Sound.{In}
use async_ery.Async.Sound.Worlds.{made_here}
use async_ery.Async.Owed.Change.{put_here}
use async_ery.Async.Owed.Worlds.{
  All-In_more, LinkedWorld, Preserves, Preserves-trans, stays-Preserves, allocate-Preserves,
}
use async_ery.Async.Owed.Makes.{Made}
use async_ery.Async.Due.{Parent, IsTaskCell, task-In, IsTask, IsProper, Waiting}
use async_ery.Async.Program.{how_many, prog_at}
use async_ery.Async.Due.Counting.{counted_none}
use async_ery.Async.Due.Effects.{carry-program, carry-IsTask}
use async_ery.Async.Due.Register.{
  register, await_any-register, await_all-register, register-Keeping, register-Still,
  how_many-programs_of, AllOwed-Parent,
}
use async_ery.Async.Due.Makes.{
  StillWorld, NewTask, Preserves-Carries, allocate-StillWorld, new_kind, only_new,
}

module _ {V Err : Type 0} where
  pub All-task-In : (w : World V Err) (cs : List Ref) → All (IsTask w) cs → All (In w.next) cs
  All-task-In w [] ts = tt
  All-task-In w (c ∷ cs) ts = (task-In w c ts.0, All-task-In w cs ts.1)

  -- A joined cell `x` was allocated, and its reports were registered with the cells.
  record Joined (w w' : World V Err) (x : ICell V Err) (ps : Progs V) (report : ℕ → Callback V)
      : Type 0 where
    made : Made w (cell w.next) w'
    still : StillWorld w w'
    same_kind : kind (w'.store.cells (cell w.next)) ≡ kind x
    waits :
        IsProper ps
        → (valued (w'.store.cells (cell w.next)) ≡ true)
          ⊎ Waiting w' report (w'.store.cells (cell w.next)) ps

  joined :
      (pack : List V → V) (w : World V Err) (x : ICell V Err) (q : Prog V) (cs : List Ref)
      (report : ℕ → Callback V)
      → LinkedWorld w
      → Preserves w (allocate w x q)
      → expected x ≡ length cs
      → heard x ≡ 0
      → All (IsTask w) cs
      → let w1 = allocate w x q in
        Joined w
          (record w1 { store = register pack (suc w1.next) w1.store 0 cs report })
          x
          (programs_of w cs)
          report
  joined pack w x q cs report l p1 total fresh ts =
      let w1 = allocate w x q in
      let s = register pack (suc w1.next) w1.store 0 cs report in
      let w' = record w1 { store = s } in
      let ps = programs_of w cs in
      let ins = All-In_more w.next w1.next cs (omega arith) (All-task-In w cs ts) in
      let r = register-Keeping pack w1.next w1.store 0 cs report p1.linked ins in
      let p = Preserves-trans {v = w1} p1 (stays-Preserves w1 s r.0) in
      let still : StillWorld w w' = λ n lt.
        register-Still pack (suc w1.next) w1.store 0 cs report (cell n)
        ∙ allocate-StillWorld w x q n lt in
      let k = Preserves-Carries w w' l p still in
      let later = r.0.later (cell w.next) (omega arith) in
      let here = put_here w.store (cell w.next) x in
      let many = how_many-programs_of pack w cs in
      let total' : expected (w1.store.cells (cell w.next)) ≡ how_many ps =
        ap expected here ∙ total ∙ sym many in
      let fresh' : heard (w1.store.cells (cell w.next)) ≡ 0 = ap heard here ∙ fresh in
      record {
        made = record { preserves = p; ref_in = omega arith; is_new = omega arith };
        still = still;
        same_kind = new_kind w x s r.0;
        waits = λ proper. elim (Bool-cases (valued (s.cells (cell w.next)))) [
          | inl e ↦ inl e
          | inr e ↦
              let n =
                later.counts.more (omega (arith, total', fresh', proper.0))
                  (omega (arith, total', proper.1)) e in
              inr record {
                total = later.counts.total_same ∙ total';
                some_left = n.1;
                reported = λ i. false;
                enough_heard = omega (arith, counted_none (how_many ps));
                rest = λ i lt. inr (
                    subst (λ n. Parent w' (prog_at ps i) (report n)) (omega arith)
                      (AllOwed-Parent pack w w' 0 cs report
                        (λ c t. (carry-IsTask w w' k c t, carry-program w w' k c (task-In w c t)))
                        ts r.1 i lt));
              }
        ];
      }

  module _ (blank : V) (pack : List V → V) where
    pub when_any-NewTask :
        (w : World V Err) (cs : List Ref) (ps : Progs V)
        → LinkedWorld w
        → All (IsTask w) cs
        → programs_of w cs ≡ ps
        → NewTask w (Prog.when_any ps) (when_any blank pack w cs).0 (when_any blank pack w cs).1
    unfolding when_any WhenAny.make
    when_any-NewTask w cs ps l ts stands =
        let i = w.next in
        let q = Prog.when_any (programs_of w cs) in
        let x = any (WhenAny.make (length cs)) in
        let w1 = allocate w x q in
        let w' = (when_any blank pack w cs).1 in
        let p1 = allocate-Preserves w x q l (λ d e. none-ne-some d e) (λ r e. refl) in
        let j : Joined w w' x (programs_of w cs) (any_to (cell i)) =
          subst (λ s. Joined w (record w1 { store = s }) x (programs_of w cs) (any_to (cell i)))
            (sym (await_any-register pack blank (suc w1.next) w1.store 0 cs (cell i)))
            (joined pack w x q cs (any_to (cell i)) l p1 refl refl ts) in
        let e : w'.made i ≡ q = made_here w x q in
        record {
          made = j.made;
          due = only_new w w' q refl e (j.same_kind, j.waits);
          still = j.still;
          is_task =
              (omega arith, subst (λ a. IsTaskCell a (kind (w'.store.cells (cell i)))) (sym e) tt);
          stands = e ∙ ap (λ a. Prog.when_any a) stands;
        }

    pub when_all-NewTask :
        (w : World V Err) (cs : List Ref) (ps : Progs V)
        → LinkedWorld w
        → All (IsTask w) cs
        → programs_of w cs ≡ ps
        → NewTask w (Prog.when_all ps) (when_all blank pack w cs).0 (when_all blank pack w cs).1
    unfolding when_all WhenAll.make
    when_all-NewTask w cs ps l ts stands =
        let i = w.next in
        let q = Prog.when_all (programs_of w cs) in
        let x = all (WhenAll.make blank (length cs)) in
        let w1 = allocate w x q in
        let w' = (when_all blank pack w cs).1 in
        let p1 = allocate-Preserves w x q l (λ d e. none-ne-some d e) (λ r e. refl) in
        let j : Joined w w' x (programs_of w cs) (all_to (cell i)) =
          subst (λ s. Joined w (record w1 { store = s }) x (programs_of w cs) (all_to (cell i)))
            (sym (await_all-register pack blank (suc w1.next) w1.store 0 cs (cell i)))
            (joined pack w x q cs (all_to (cell i)) l p1 refl refl ts) in
        let e : w'.made i ≡ q = made_here w x q in
        record {
          made = j.made;
          due = only_new w w' q refl e (j.same_kind, j.waits);
          still = j.still;
          is_task =
              (omega arith, subst (λ a. IsTaskCell a (kind (w'.store.cells (cell i)))) (sym e) tt);
          stands = e ∙ ap (λ a. Prog.when_all a) stands;
        }
