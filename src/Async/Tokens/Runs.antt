-- ===== src/Async/Tokens/Runs.antt =====
-- A job that runs leaves each report to come once, and knows what its report completes.
use async_ery.Base.{
  ℕ, suc, ◌+◌, ◌≡◌, ◌≤◌, ◌<◌, inl, inr, refl, sym, ◌∙◌, ap, subst, Bool, Bool-cases, true, false,
  ◌==◌, equal, differ, same_number, List, if◌then◌else◌, arith,
}
use async_ery.Cell.Result.{Result, value, error}
use async_ery.Cell.WhenAny
use async_ery.Cell.WhenAll
use async_ery.Scheduler.Context.{Context}
use async_ery.Async.Program.{Prog, mapped}
use async_ery.Async.Store.{
  Ref, source, cell, map_to, bind_to, any_to, all_to, user, ICell, once, tracking, any, all, Work,
  call, compute, Store, write, report_any, report_any_cell, report_all, report_all_cell,
}
use async_ery.Async.Task.{World, build, run_bind, run_callback, run_work}
use async_ery.Async.Sound.{In, WorkFits, InAny, InAll, AnyFits, AllFits}
use async_ery.Async.Sound.Reports.{AnyLast, AllLast}
use async_ery.Async.Sound.Jobs.{WorkLast}
use async_ery.Async.Owed.Change.{put_here}
use async_ery.Async.Tokens.{work_load, Alone, more-Alone}
use async_ery.Async.Tokens.Counts.{unmark}
use async_ery.Async.Tokens.Steps.{view, Op-trans, write-Op, track-Op}
use async_ery.Async.Tokens.Worlds.{
  weight, budget, budget_small, Tally, unmark-Tally, Tight, Taken, Taken-Tight, step-Tight,
}
use async_ery.Async.Tokens.Reports.{
  report_any-Alone, report_all-Alone, report_any-others, report_all-others, any_last, all_last,
  told_any, told_all,
}
use async_ery.Async.Tokens.Makes.{build-Tight}

module _ {V Err : Type 0} (blank : V) (pack : List V → V) (Src : ℕ → Result V Err → Type 0)
    (User : ℕ → Result V Err → Type 0) where
  run_bind-Tight :
      (w : World V Err) (ctx : Context) (t d : Ref) (f : V → Prog V) (r : Result V Err)
      → Tight blank pack Src w
      → Tight blank pack Src (run_bind blank pack w ctx t d f r)
  unfolding run_bind
  run_bind-Tight w ctx t d f (value v) h =
      let c = (build blank pack (f v) w).0 in
      let w' = (build blank pack (f v) w).1 in
      step-Tight blank pack Src w' _ (λ m i. track-Op (weight m i) pack (suc w'.next) w'.store t c)
        (build-Tight blank pack Src (f v) w h)
  run_bind-Tight w ctx t d f (error e) h =
      let s = write pack w.store ctx d (error e) in
      step-Tight blank pack Src w _
        (λ m i.
          Op-trans (weight m i) 0 0 (write-Op (weight m i) pack w.store ctx d (error e))
            (track-Op (weight m i) pack (suc w.next) s t d))
        h

  -- The report of place `i` to cell `n` came.
  told-Tight :
      (w : World V Err) (s : Store V Err) (work : Work V Err) (n i : ℕ)
      → (t : Taken blank pack Src w work)
      → ((m j : ℕ)
          → work_load (weight m j) work ≡ (if n == m then (if i == j then 1 else 0) else 0))
      → n < w.next
      → ((m j k : ℕ) → k ≤ 1 → Alone (weight m j) k w.store → Alone (weight m j) k s)
      → ((m : ℕ) → (n == m) ≡ false → s.cells (cell m) ≡ w.store.cells (cell m))
      → Tally blank pack Src (w.made n) (unmark (t.left n) i) (view (s.cells (cell n)))
      → Tight blank pack Src (record w { store = s })
  told-Tight w s work n i t loads lt keeps others here =
      let left : ℕ → ℕ → Bool = λ m j. if m == n then unmark (t.left n) i j else t.left m j in
      let fits : (m j k : ℕ)
          → k + work_load (weight m j) work ≤ budget (t.left m j)
          → k ≤ budget (left m j) =
        λ m j k le. elim (Bool-cases (m == n)) [
          | inr e ↦ rw e (omega (arith, le))
          | inl e ↦
              let same : m ≡ n = equal e in
              let le' : k + work_load (weight n j) work ≤ budget (t.left n j) =
                subst (λ a. k + work_load (weight a j) work ≤ budget (t.left a j)) same le in
              elim (Bool-cases (j == i)) [
                | inr f ↦ rw (e, f) (omega (arith, le'))
                | inl f ↦
                    let at : j ≡ i = equal f in
                    let one : work_load (weight n j) work ≡ 1 =
                      loads n j
                      ∙ ap (λ b. if b then (if i == j then 1 else 0) else 0) (same_number n)
                      ∙ ap (λ b. if b then 1 else 0)
                          (subst (λ a. (a == j) ≡ true) at (same_number j)) in
                    rw (e, f) (omega (arith, one, le', budget_small (t.left n j)))
              ]
        ] in
      record {
        left = left;
        token = λ m j.
            let (k, few, a) = t.token m j in
            more-Alone (weight m j) k (budget (left m j)) s (fits m j k few)
              (keeps m j k (omega (arith, few, budget_small (t.left m j))) a);
        fresh = λ m j le.
            let other : (m == n) ≡ false = differ (omega arith) in rw other (t.fresh m j le);
        tally = λ m lm. elim (Bool-cases (m == n)) [
          | inl e ↦
              subst (λ a. Tally blank pack Src (w.made a) (left a) (view (s.cells (cell a))))
                (sym (equal e)) (rw (same_number n) here)
          | inr e ↦
              let other : (n == m) ≡ false = differ (ground arith) in
              rw e (
                subst (λ x. Tally blank pack Src (w.made m) (t.left m) (view x))
                  (sym (others m other)) (t.tally m lm))
        ];
      }

  any-Tally :
      (x : ICell V Err) (p : Prog V) (left : ℕ → Bool) (s : Store V Err) (ctx : Context) (d : Ref)
      (i : ℕ) (r : Result V Err)
      → s.cells d ≡ x
      → Tally blank pack Src p left (view x)
      → left i ≡ true
      → ((e : Err) → r ≡ error e → InAny blank pack Src User p i (error e))
      → Tally blank pack Src p (unmark left i) (view ((report_any_cell pack x s ctx d r).cells d))
  unfolding report_any_cell WhenAny.on_result WhenAny.on_value
  any-Tally (any k) p left s ctx d i (error e) same t l m =
      let k' = (WhenAny.on_result k ctx (error e)).0 in
      subst (λ y. Tally blank pack Src p (unmark left i) (view y)) (sym (put_here s d (any k')))
        (told_any blank pack Src User p left i e ctx k t l (m e refl))
  any-Tally (any k) p left s ctx d i (value v) same t l m =
      let k' = (WhenAny.on_result k ctx (value v)).0 in
      subst (λ y. Tally blank pack Src p (unmark left i) (view y)) (sym (put_here s d (any k')))
        (unmark-Tally blank pack Src p left i (view (any k)) t)
  any-Tally (all k) p left s ctx d i r same t l m =
      unmark-Tally blank pack Src p left i _
        (subst (λ y. Tally blank pack Src p left (view y)) (sym same) t)
  any-Tally (once k) p left s ctx d i r same t l m =
      unmark-Tally blank pack Src p left i _
        (subst (λ y. Tally blank pack Src p left (view y)) (sym same) t)
  any-Tally (tracking k) p left s ctx d i r same t l m =
      unmark-Tally blank pack Src p left i _
        (subst (λ y. Tally blank pack Src p left (view y)) (sym same) t)

  all-Tally :
      (x : ICell V Err) (p : Prog V) (left : ℕ → Bool) (s : Store V Err) (ctx : Context) (d : Ref)
      (i : ℕ) (r : Result V Err)
      → s.cells d ≡ x
      → Tally blank pack Src p left (view x)
      → left i ≡ true
      → ((v : V) → r ≡ value v → InAll blank pack Src User p i (value v))
      → Tally blank pack Src p (unmark left i) (view ((report_all_cell pack x s ctx d i r).cells d))
  unfolding report_all_cell WhenAll.on_result WhenAll.on_error
  all-Tally (all k) p left s ctx d i (value v) same t l m =
      let k' = (WhenAll.on_result k ctx i (value v)).0 in
      subst (λ y. Tally blank pack Src p (unmark left i) (view y)) (sym (put_here s d (all k')))
        (told_all blank pack Src User p left i v ctx k t l (m v refl))
  all-Tally (all k) p left s ctx d i (error e) same t l m =
      let k' = (WhenAll.on_result k ctx i (error e)).0 in
      subst (λ y. Tally blank pack Src p (unmark left i) (view y)) (sym (put_here s d (all k')))
        (unmark-Tally blank pack Src p left i (view (all k)) t)
  all-Tally (any k) p left s ctx d i r same t l m =
      unmark-Tally blank pack Src p left i _
        (subst (λ y. Tally blank pack Src p left (view y)) (sym same) t)
  all-Tally (once k) p left s ctx d i r same t l m =
      unmark-Tally blank pack Src p left i _
        (subst (λ y. Tally blank pack Src p left (view y)) (sym same) t)
  all-Tally (tracking k) p left s ctx d i r same t l m =
      unmark-Tally blank pack Src p left i _
        (subst (λ y. Tally blank pack Src p left (view y)) (sym same) t)

  -- The report that was queued could still come.
  can_come :
      (w : World V Err) (work : Work V Err) (n i : ℕ) (t : Taken blank pack Src w work)
      → work_load (weight n i) work ≡ (if n == n then (if i == i then 1 else 0) else 0)
      → t.left n i ≡ true
  can_come w work n i t e = elim (Bool-cases (t.left n i)) [
    | inl l ↦ l
    | inr l ↦
        let one : work_load (weight n i) work ≡ 1 =
          e
          ∙ ap (λ b. if b then (if i == i then 1 else 0) else 0) (same_number n)
          ∙ ap (λ b. if b then 1 else 0) (same_number i) in
        let (k, few, a) = t.token n i in absurd (omega (arith, one, ap budget l))
  ]

  run_any-Tight :
      (w : World V Err) (ctx : Context) (d : Ref) (i : ℕ) (r : Result V Err)
      → Taken blank pack Src w (call (any_to d i) r)
      → In w.next d × AnyFits blank pack Src User w.made w.next d i r
      → Tight blank pack Src (record w { store = report_any pack w.store ctx d r })
  unfolding report_any
  run_any-Tight w ctx (source k) i r t fit =
      let s = report_any pack w.store ctx (source k) r in
      let h = Taken-Tight blank pack Src w _ t in
      record {
        left = h.left;
        token = λ m j.
            report_any-Alone (weight m j) pack w.store ctx (source k) r (budget (h.left m j))
              (budget_small (h.left m j)) (h.token m j);
        fresh = h.fresh;
        tally = λ m lt.
            subst (λ x. Tally blank pack Src (w.made m) (h.left m) (view x))
              (sym (report_any-others pack w.store ctx (source k) r (cell m) refl)) (h.tally m lt);
      }
  run_any-Tight w ctx (cell n) i r t fit =
      let work = call (any_to (cell n) i) r in
      told-Tight w (report_any pack w.store ctx (cell n) r) work n i t (λ m j. refl) fit.0
        (λ m j k le a. report_any-Alone (weight m j) pack w.store ctx (cell n) r k le a)
        (λ m e. report_any-others pack w.store ctx (cell n) r (cell m) e)
        (any-Tally (w.store.cells (cell n)) (w.made n) (t.left n) w.store ctx (cell n) i r refl
          (t.tally n fit.0) (can_come w work n i t refl)
          (λ e same. subst (AnyFits blank pack Src User w.made w.next (cell n) i) same fit.1))

  run_all-Tight :
      (w : World V Err) (ctx : Context) (d : Ref) (i : ℕ) (r : Result V Err)
      → Taken blank pack Src w (call (all_to d i) r)
      → In w.next d × AllFits blank pack Src User w.made w.next d i r
      → Tight blank pack Src (record w { store = report_all pack w.store ctx d i r })
  unfolding report_all
  run_all-Tight w ctx (source k) i r t fit =
      let s = report_all pack w.store ctx (source k) i r in
      let h = Taken-Tight blank pack Src w _ t in
      record {
        left = h.left;
        token = λ m j.
            report_all-Alone (weight m j) pack w.store ctx (source k) i r (budget (h.left m j))
              (budget_small (h.left m j)) (h.token m j);
        fresh = h.fresh;
        tally = λ m lt.
            subst (λ x. Tally blank pack Src (w.made m) (h.left m) (view x))
              (sym (report_all-others pack w.store ctx (source k) i r (cell m) refl))
              (h.tally m lt);
      }
  run_all-Tight w ctx (cell n) i r t fit =
      let work = call (all_to (cell n) i) r in
      told-Tight w (report_all pack w.store ctx (cell n) i r) work n i t (λ m j. refl) fit.0
        (λ m j k le a. report_all-Alone (weight m j) pack w.store ctx (cell n) i r k le a)
        (λ m e. report_all-others pack w.store ctx (cell n) i r (cell m) e)
        (all-Tally (w.store.cells (cell n)) (w.made n) (t.left n) w.store ctx (cell n) i r refl
          (t.tally n fit.0) (can_come w work n i t refl)
          (λ v same. subst (AllFits blank pack Src User w.made w.next (cell n) i) same fit.1))

  pub run_work-Tight :
      (w : World V Err) (ctx : Context) (work : Work V Err)
      → Taken blank pack Src w work
      → WorkFits blank pack Src User w.made w.next work
      → Tight blank pack Src (run_work blank pack w ctx work)
  unfolding run_work run_callback
  run_work-Tight w ctx (compute d v) t fit =
      step-Tight blank pack Src w _ (λ m i. write-Op (weight m i) pack w.store ctx d (value v))
        (Taken-Tight blank pack Src w _ t)
  run_work-Tight w ctx (call (map_to d f) r) t fit =
      step-Tight blank pack Src w _ (λ m i. write-Op (weight m i) pack w.store ctx d (mapped f r))
        (Taken-Tight blank pack Src w _ t)
  run_work-Tight w ctx (call (bind_to c d f) r) t fit =
      run_bind-Tight w ctx c d f r (Taken-Tight blank pack Src w _ t)
  run_work-Tight w ctx (call (any_to d i) r) t fit = run_any-Tight w ctx d i r t fit
  run_work-Tight w ctx (call (all_to d i) r) t fit = run_all-Tight w ctx d i r t fit
  run_work-Tight w ctx (call (user n) r) t fit =
      let h = Taken-Tight blank pack Src w _ t in
      record { left = h.left; token = h.token; fresh = h.fresh; tally = h.tally }

  -- What the job knows.
  any_knows :
      (x : ICell V Err) (w : World V Err) (n i : ℕ) (r : Result V Err) (left : ℕ → Bool)
      → Tally blank pack Src (w.made n) left (view x)
      → left i ≡ true
      → AnyFits blank pack Src User w.made w.next (cell n) i r
      → AnyLast blank pack Src User w.made w.next x (cell n) r
  any_knows (any k) w n i (error e) left t l fit =
      any_last blank pack Src User (w.made n) left i e k t l fit
  any_knows (any k) w n i (value v) left t l fit = tt
  any_knows (all k) w n i r left t l fit = tt
  any_knows (once k) w n i r left t l fit = tt
  any_knows (tracking k) w n i r left t l fit = tt

  all_knows :
      (x : ICell V Err) (w : World V Err) (n i : ℕ) (r : Result V Err) (left : ℕ → Bool)
      → Tally blank pack Src (w.made n) left (view x)
      → left i ≡ true
      → AllFits blank pack Src User w.made w.next (cell n) i r
      → AllLast blank pack Src User w.made w.next x (cell n) i r
  all_knows (all k) w n i (value v) left t l fit =
      all_last blank pack Src User (w.made n) left i v k t l fit
  all_knows (all k) w n i (error e) left t l fit = tt
  all_knows (any k) w n i r left t l fit = tt
  all_knows (once k) w n i r left t l fit = tt
  all_knows (tracking k) w n i r left t l fit = tt

  -- No report goes to the cell of a source.
  any_source :
      (x : ICell V Err) (w : World V Err) (k i : ℕ) (r : Result V Err)
      → AnyFits blank pack Src User w.made w.next (source k) i r
      → AnyLast blank pack Src User w.made w.next x (source k) r
  any_source x w k i (error e) fit = absurd fit
  any_source (any c) w k i (value v) fit = tt
  any_source (all c) w k i (value v) fit = tt
  any_source (once c) w k i (value v) fit = tt
  any_source (tracking c) w k i (value v) fit = tt

  all_source :
      (x : ICell V Err) (w : World V Err) (k i : ℕ) (r : Result V Err)
      → AllFits blank pack Src User w.made w.next (source k) i r
      → AllLast blank pack Src User w.made w.next x (source k) i r
  all_source x w k i (value v) fit = absurd fit
  all_source (any c) w k i (error e) fit = tt
  all_source (all c) w k i (error e) fit = tt
  all_source (once c) w k i (error e) fit = tt
  all_source (tracking c) w k i (error e) fit = tt

  pub knows :
      (w : World V Err) (work : Work V Err)
      → Taken blank pack Src w work
      → WorkFits blank pack Src User w.made w.next work
      → WorkLast blank pack Src User w work
  knows w (compute d v) t fit = tt
  knows w (call (map_to d f) r) t fit = tt
  knows w (call (bind_to c d f) r) t fit = tt
  knows w (call (user n) r) t fit = tt
  knows w (call (any_to (source k) i) r) t fit = any_source (w.store.cells (source k)) w k i r fit.1
  knows w (call (all_to (source k) i) r) t fit = all_source (w.store.cells (source k)) w k i r fit.1
  knows w (call (any_to (cell n) i) r) t fit =
      any_knows (w.store.cells (cell n)) w n i r (t.left n) (t.tally n fit.0)
        (can_come w (call (any_to (cell n) i) r) n i t refl) fit.1
  knows w (call (all_to (cell n) i) r) t fit =
      all_knows (w.store.cells (cell n)) w n i r (t.left n) (t.tally n fit.0)
        (can_come w (call (all_to (cell n) i) r) n i t refl) fit.1
