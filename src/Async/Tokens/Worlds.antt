-- ===== src/Async/Tokens/Worlds.antt =====
-- A world in which each report to a joined cell can come once, and the cell has counted those that came.
use async_ery.Base.{
  ℕ, suc, ◌+◌, ◌≡◌, ◌≤◌, ◌<◌, inl, inr, refl, sym, ◌∙◌, ap, subst, Bool, Bool-cases, true, false,
  ◌==◌, equal, differ, same_number, List, [], ◌∷◌, length, get_or, total, if◌then◌else◌, arith,
}
use async_ery.Cell.Result.{Result, value, error}
use async_ery.Cell.WhenAny.{WhenAnyExecutionContext}
use async_ery.Cell.WhenAll.{WhenAllExecutionContext}
use async_ery.Async.Program.{Prog, Progs, how_many, prog_at, Means}
use async_ery.Async.Store.{
  Ref, cell, same_ref, Callback, map_to, bind_to, any_to, all_to, user, ICell, Work, Store, await,
}
use async_ery.Async.Task.{World, allocate}
use async_ery.Async.Owed.{held}
use async_ery.Async.Due.Register.{register}
use async_ery.Async.Tokens.{work_load, Alone, more-Alone, clear-Alone}
use async_ery.Async.Tokens.Counts.{Count, dropped-Count, unmark}
use async_ery.Async.Tokens.Steps.{
  View, nothing, of_any, of_all, view, Op, Op-refl, Op-trans, await-Op,
}

-- The report of place `i` to cell `m`.
abbrev pub weight : {V : Type 0} → ℕ → ℕ → Callback V → ℕ
weight m i (any_to d j) = if same_ref d (cell m) then (if j == i then 1 else 0) else 0
weight m i (all_to d j) = if same_ref d (cell m) then (if j == i then 1 else 0) else 0
weight m i (map_to d f) = 0
weight m i (bind_to t d f) = 0
weight m i (user n) = 0

abbrev pub budget : Bool → ℕ
budget true = 1
budget false = 0

pub budget_small : (b : Bool) → budget b ≤ 1
budget_small true = omega arith
budget_small false = omega arith

module _ {V Err : Type 0} (blank : V) (pack : List V → V) (Src : ℕ → Result V Err → Type 0) where
  pub record AnyTally (ps : Progs V) (left : ℕ → Bool) (e : WhenAnyExecutionContext) : Type 0 where
    pub total : e.total_cells ≡ how_many ps
    pub told : ℕ → Bool
    pub count : Count (how_many ps) e.num_erroneous_cells left told
    pub fails :
        (i : ℕ)
        → i < how_many ps
        → told i ≡ true
        → (x : Err) × Means blank pack Src (prog_at ps i) (error x)

  pub record AllTally (ps : Progs V) (left : ℕ → Bool) (e : WhenAllExecutionContext V)
      : Type 0 where
    pub total : e.total_cells ≡ how_many ps
    pub room : length e.resolved_values ≡ how_many ps
    pub told : ℕ → Bool
    pub count : Count (how_many ps) e.num_resolved_cells left told
    pub gives :
        (i : ℕ)
        → i < how_many ps
        → told i ≡ true
        → Means blank pack Src (prog_at ps i) (value (get_or e.resolved_values i blank))

  abbrev pub Tally : Prog V → (ℕ → Bool) → View V → Type 0
  Tally (Prog.when_any ps) left (of_any e) = AnyTally ps left e
  Tally (Prog.when_any ps) left (of_all e) = ⊥
  Tally (Prog.when_any ps) left nothing = ⊥
  Tally (Prog.when_all ps) left (of_all e) = AllTally ps left e
  Tally (Prog.when_all ps) left (of_any e) = ⊥
  Tally (Prog.when_all ps) left nothing = ⊥
  Tally (Prog.source k) left v = Unit
  Tally (Prog.create u) left v = Unit
  Tally (Prog.map p f) left v = Unit
  Tally (Prog.bind p f) left v = Unit

  pub unmark-Tally :
      (p : Prog V) (left : ℕ → Bool) (i : ℕ) (v : View V)
      → Tally p left v
      → Tally p (unmark left i) v
  unmark-Tally (Prog.when_any ps) left i (of_any e) t = record {
    total = t.total;
    told = t.told;
    count = dropped-Count i t.count;
    fails = t.fails;
  }
  unmark-Tally (Prog.when_any ps) left i (of_all e) t = t
  unmark-Tally (Prog.when_any ps) left i nothing t = t
  unmark-Tally (Prog.when_all ps) left i (of_all e) t = record {
    total = t.total;
    room = t.room;
    told = t.told;
    count = dropped-Count i t.count;
    gives = t.gives;
  }
  unmark-Tally (Prog.when_all ps) left i (of_any e) t = t
  unmark-Tally (Prog.when_all ps) left i nothing t = t
  unmark-Tally (Prog.source k) left i v t = t
  unmark-Tally (Prog.create u) left i v t = t
  unmark-Tally (Prog.map p f) left i v t = t
  unmark-Tally (Prog.bind p f) left i v t = t

  pub record Tight (w : World V Err) : Type 0 where
    pub left : ℕ → ℕ → Bool
    pub token : (m i : ℕ) → Alone (weight m i) (budget (left m i)) w.store
    pub fresh : (m i : ℕ) → w.next ≤ m → left m i ≡ false
    pub tally : (m : ℕ) → m < w.next → Tally (w.made m) (left m) (view (w.store.cells (cell m)))

  -- A job that was taken out has what it reports.
  pub record Taken (w : World V Err) (work : Work V Err) : Type 0 where
    pub left : ℕ → ℕ → Bool
    pub token :
        (m i : ℕ)
        → (k : ℕ) × (k + work_load (weight m i) work ≤ budget (left m i))
          × Alone (weight m i) k w.store
    pub fresh : (m i : ℕ) → w.next ≤ m → left m i ≡ false
    pub tally : (m : ℕ) → m < w.next → Tally (w.made m) (left m) (view (w.store.cells (cell m)))

  pub Taken-Tight : (w : World V Err) (work : Work V Err) → Taken w work → Tight w
  Taken-Tight w work t = record {
    left = t.left;
    token = λ m i.
        let (k, few, a) = t.token m i in
        more-Alone (weight m i) k (budget (t.left m i)) w.store (omega arith) a;
    fresh = t.fresh;
    tally = t.tally;
  }

  pub step-Tight :
      (w : World V Err) (s : Store V Err)
      → ((m i : ℕ) → Op (weight m i) 0 w.store s)
      → Tight w
      → Tight (record w { store = s })
  step-Tight w s o t = record {
    left = t.left;
    token = λ m i.
        let n = budget (t.left m i) in
        more-Alone (weight m i) (n + 0) n s (omega arith)
          ((o m i).alone n (omega (arith, budget_small (t.left m i))) (t.token m i));
    fresh = t.fresh;
    tally = λ m lt.
        subst (λ v. Tally (w.made m) (t.left m) v) (sym ((o 0 0).views (cell m))) (t.tally m lt);
  }

  -- The counts, when a cell was allocated.
  new-Tally :
      (w : World V Err) (x : ICell V Err) (p : Prog V) (left : ℕ → ℕ → Bool)
      → Tally p (left w.next) (view x)
      → ((m : ℕ) → m < w.next → Tally (w.made m) (left m) (view (w.store.cells (cell m))))
      → (m : ℕ) → m < suc w.next
      → Tally ((allocate w x p).made m) (left m) (view ((allocate w x p).store.cells (cell m)))
  new-Tally w x p left here old m lt = elim (Bool-cases (m == w.next)) [
    | inl e ↦
        subst
          (λ a.
            Tally ((allocate w x p).made a) (left a) (view ((allocate w x p).store.cells (cell a))))
          (sym (equal e)) (rw (same_number w.next) here)
    | inr e ↦
        let other : (w.next == m) ≡ false = differ (ground arith) in
        rw (e, other) (old m (ground arith))
  ]

  pub allocate-Tight :
      (w : World V Err) (x : ICell V Err) (p : Prog V)
      → held x ≡ []
      → ((left : ℕ → Bool) → Tally p left (view x))
      → Tight w
      → Tight (allocate w x p)
  allocate-Tight w x p none here t = record {
    left = t.left;
    token = λ m i.
        let n = budget (t.left m i) in
        let (k, few, a) =
          clear-Alone (weight m i) w.store (cell w.next) x n (ap (total (weight m i)) none)
            (t.token m i) in
        more-Alone (weight m i) k n (allocate w x p).store (omega arith) a;
    fresh = λ m i le. t.fresh m i (omega arith);
    tally = new-Tally w x p t.left (here (t.left w.next)) t.tally;
  }

  -- What the loop of a join registers.
  abbrev pub loop_load : (Callback V → ℕ) → ℕ → List Ref → (ℕ → Callback V) → ℕ
  loop_load w i [] report = 0
  loop_load w i (c ∷ cs) report = w (report i) + loop_load w (i + 1) cs report

  register-Op :
      (w : Callback V → ℕ) (fuel : ℕ) (s : Store V Err) (i : ℕ) (cs : List Ref)
      (report : ℕ → Callback V)
      → Op w (loop_load w i cs report) s (register pack fuel s i cs report)
  register-Op w fuel s i [] report = Op-refl w s
  register-Op w fuel s i (c ∷ cs) report =
      Op-trans w (w (report i)) (loop_load w (i + 1) cs report)
        (await-Op w pack fuel s c (report i))
        (register-Op w fuel (await pack fuel s c (report i)) (i + 1) cs report)

  loop_once :
      (w : Callback V → ℕ) (i j : ℕ) (cs : List Ref) (report : ℕ → Callback V)
      → ((k : ℕ) → w (report k) ≤ (if k == i then 1 else 0))
      → (loop_load w j cs report ≤ 1) × (i < j → loop_load w j cs report ≡ 0)
  loop_once w i j [] report h = (omega arith, λ lt. refl)
  loop_once w i j (c ∷ cs) report h =
      let rest = loop_once w i (j + 1) cs report h in
      elim (Bool-cases (j == i)) [
        | inl e ↦
            let one : w (report j) ≤ 1 = subst (λ b. w (report j) ≤ (if b then 1 else 0)) e (h j) in
            let same : j ≡ i = equal e in
            (omega (arith, rest.1 (omega arith)), λ lt. absurd (omega arith))
        | inr e ↦
            let none : w (report j) ≤ 0 =
              subst (λ b. w (report j) ≤ (if b then 1 else 0)) e (h j) in
            (omega (arith, rest.0), λ lt. omega (arith, rest.1 (omega arith)))
      ]

  loop_none :
      (w : Callback V → ℕ) (j : ℕ) (cs : List Ref) (report : ℕ → Callback V)
      → ((k : ℕ) → w (report k) ≡ 0)
      → loop_load w j cs report ≡ 0
  loop_none w j [] report h = refl
  loop_none w j (c ∷ cs) report h = omega (arith, h j, loop_none w (j + 1) cs report h)

  -- The reports to cell `n` of all places.
  abbrev pub ReportsTo : ℕ → (ℕ → Callback V) → Type 0
  ReportsTo n report =
      (m i k : ℕ) → weight m i (report k) ≡ (if n == m then (if k == i then 1 else 0) else 0)

  pub join-Tight :
      (w : World V Err) (x : ICell V Err) (p : Prog V) (fuel : ℕ) (cs : List Ref)
      (report : ℕ → Callback V)
      → held x ≡ []
      → ReportsTo w.next report
      → Tally p (λ i. true) (view x)
      → Tight w
      → Tight (record (allocate w x p) {
        store = register pack fuel (allocate w x p).store 0 cs report;
      })
  join-Tight w x p fuel cs report none to here t =
      let w1 = allocate w x p in
      let s = register pack fuel w1.store 0 cs report in
      let left : ℕ → ℕ → Bool = λ m i. if m == w.next then true else t.left m i in
      let fits : (m i : ℕ)
          → budget (t.left m i) + loop_load (weight m i) 0 cs report ≤ budget (left m i) =
        λ m i. elim (Bool-cases (m == w.next)) [
          | inl e ↦
              let same : m ≡ w.next = equal e in
              let spent : budget (t.left m i) ≡ 0 = ap budget (t.fresh m i (omega arith)) in
              let back : (w.next == m) ≡ true = subst (λ a. (a == m) ≡ true) same (same_number m) in
              let once = loop_once (weight m i) i 0 cs report (λ k.
                subst (λ a. weight m i (report k) ≤ a)
                  (to m i k ∙ ap (λ b. if b then (if k == i then 1 else 0) else 0) back)
                  (omega arith)) in
              rw e (omega (arith, spent, once.0))
          | inr e ↦
              let other : (w.next == m) ≡ false = differ (ground arith) in
              let nil =
                loop_none (weight m i) 0 cs report
                  (λ k. to m i k ∙ ap (λ b. if b then (if k == i then 1 else 0) else 0) other) in
              rw e (omega (arith, nil))
        ] in
      record {
        left = left;
        token = λ m i.
            let n = budget (t.left m i) in
            let l = loop_load (weight m i) 0 cs report in
            let (k, few, a) =
              clear-Alone (weight m i) w.store (cell w.next) x n (ap (total (weight m i)) none)
                (t.token m i) in
            more-Alone (weight m i) (k + l) (budget (left m i)) s (omega (arith, fits m i)) (
              (register-Op (weight m i) fuel w1.store 0 cs report).alone k
                (omega (arith, fits m i, budget_small (left m i))) a);
        fresh = λ m i le.
            let other : (m == w.next) ≡ false = differ (omega arith) in
            rw other (t.fresh m i (omega arith));
        tally = λ m lt.
            subst (λ v. Tally (w1.made m) (left m) v)
              (sym ((register-Op (weight 0 0) fuel w1.store 0 cs report).views (cell m)))
              (new-Tally w x p left (rw (same_number w.next) here)
                (λ a la.
                  let other : (a == w.next) ≡ false = differ (omega arith) in
                  rw other (t.tally a la))
                m lt);
      }
