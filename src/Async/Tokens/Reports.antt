-- ===== src/Async/Tokens/Reports.antt =====
-- A report to a joined cell: what the last one knows, and the counts after it.
use async_ery.Base.{
  ℕ, suc, ◌+◌, ◌≡◌, ◌≤◌, ◌<◌, ◌⊎◌, inl, inr, refl, sym, ◌∙◌, subst, Bool, Bool-cases, true, false,
  ◌==◌, equal, List, [], ◌∷◌, length, length-set, get_or, get_or-set_self, get_or-set_ne, set, leb,
  add_size, arith,
}
use async_ery.Cell.Result.{Result, value, error}
use async_ery.Cell.WriteOnce.{write, write_error}
use async_ery.Cell.WriteOnce.Moves.{CellMoves, write-CellMoves}
use async_ery.Cell.WhenAny.{WhenAnyCell, log_error}
use async_ery.Cell.WhenAny
use async_ery.Cell.WhenAll.{WhenAllCell, commit_resolved_value}
use async_ery.Cell.WhenAll
use async_ery.Scheduler.Context.{Context}
use async_ery.Async.Program.{Prog, Progs, nil, cons, how_many, prog_at, Means, AllFail, AllGive}
use async_ery.Async.Store.{
  Ref, same_ref, Callback, ICell, once, tracking, any, all, Store, report_any, report_any_cell,
  report_all, report_all_cell,
}
use async_ery.Async.Sound.{InAny, InAll}
use async_ery.Async.Sound.Joins.{Some-at}
use async_ery.Async.Due.Counting.{mark, mark_other}
use async_ery.Async.Tokens.{Alone, more-Alone, changed-Alone}
use async_ery.Async.Tokens.Counts.{told-Count, last-Count, unmark}
use async_ery.Async.Tokens.Steps.{of_any, of_all, job_of-Moves, packed_job_of-Moves}
use async_ery.Async.Tokens.Worlds.{Tally, AnyTally, AllTally}

module _ {V Err : Type 0} (w : Callback V → ℕ) where
  any-CellMoves :
      (k : WhenAnyCell (Callback V) V Err) (ctx : Context) (r : Result V Err)
      → let (k', calls) = WhenAny.on_result k ctx r in
        CellMoves w 0 k.underlying_cell k'.underlying_cell calls
  unfolding WhenAny.on_result WhenAny.on_value WhenAny.on_error log_error write write_error
  any-CellMoves k ctx (value v) = write-CellMoves w k.underlying_cell ctx (value v)
  any-CellMoves k ctx (error x) =
      elim (Bool-cases (leb k.exe_ctx.total_cells (add_size k.exe_ctx.num_erroneous_cells 1))) [
        | inl e ↦ rw (e, WhenAny.on_error) (write-CellMoves w k.underlying_cell ctx (error x))
        | inr e ↦ rw (e, WhenAny.on_error) (inl (refl, omega arith))
      ]

  all-CellMoves :
      (k : WhenAllCell (Callback V) V Err) (ctx : Context) (i : ℕ) (r : Result V Err)
      → let (k', calls) = WhenAll.on_result k ctx i r in
        CellMoves w 0 k.underlying_cell k'.underlying_cell calls
  unfolding WhenAll.on_result WhenAll.on_value WhenAll.on_error commit_resolved_value write
      write_error
  all-CellMoves k ctx i (error x) = write-CellMoves w k.underlying_cell ctx (error x)
  all-CellMoves k ctx i (value v) =
      let slots = set k.execution_context.resolved_values i v in
      elim (Bool-cases
        (leb k.execution_context.total_cells (add_size k.execution_context.num_resolved_cells 1))) [
          | inl e ↦ rw (e, WhenAll.on_value) (write-CellMoves w k.underlying_cell ctx (value slots))
          | inr e ↦ rw (e, WhenAll.on_value) (inl (refl, omega arith))
        ]

  module _ (pack : List V → V) where
    any_cell-Alone :
        (x : ICell V Err) (s : Store V Err) (ctx : Context) (d : Ref) (r : Result V Err)
        → s.cells d ≡ x
        → (n : ℕ) → n ≤ 1
        → Alone w n s
        → Alone w n (report_any_cell pack x s ctx d r)
    unfolding report_any_cell
    any_cell-Alone (any k) s ctx d r same n le a =
        let k' = (WhenAny.on_result k ctx r).0 in
        let calls = (WhenAny.on_result k ctx r).1 in
        more-Alone w (n + 0) n (report_any_cell pack (any k) s ctx d r) (omega arith) (
          changed-Alone w s d (any k) (any k') _ same n 0 (omega arith)
            (job_of-Moves w (any k) (any k') k.underlying_cell k'.underlying_cell 0 calls refl refl
              (any-CellMoves k ctx r))
            a)
    any_cell-Alone (all k) s ctx d r same n le a = a
    any_cell-Alone (once k) s ctx d r same n le a = a
    any_cell-Alone (tracking t) s ctx d r same n le a = a

    pub report_any-Alone :
        (s : Store V Err) (ctx : Context) (d : Ref) (r : Result V Err) (n : ℕ)
        → n ≤ 1
        → Alone w n s
        → Alone w n (report_any pack s ctx d r)
    unfolding report_any
    report_any-Alone s ctx d r n le a = any_cell-Alone (s.cells d) s ctx d r refl n le a

    all_cell-Alone :
        (x : ICell V Err) (s : Store V Err) (ctx : Context) (d : Ref) (i : ℕ) (r : Result V Err)
        → s.cells d ≡ x
        → (n : ℕ) → n ≤ 1
        → Alone w n s
        → Alone w n (report_all_cell pack x s ctx d i r)
    unfolding report_all_cell
    all_cell-Alone (all k) s ctx d i r same n le a =
        let k' = (WhenAll.on_result k ctx i r).0 in
        let calls = (WhenAll.on_result k ctx i r).1 in
        more-Alone w (n + 0) n (report_all_cell pack (all k) s ctx d i r) (omega arith) (
          changed-Alone w s d (all k) (all k') _ same n 0 (omega arith)
            (packed_job_of-Moves w pack (all k) (all k') k.underlying_cell k'.underlying_cell 0
              calls refl refl (all-CellMoves k ctx i r))
            a)
    all_cell-Alone (any k) s ctx d i r same n le a = a
    all_cell-Alone (once k) s ctx d i r same n le a = a
    all_cell-Alone (tracking t) s ctx d i r same n le a = a

    pub report_all-Alone :
        (s : Store V Err) (ctx : Context) (d : Ref) (i : ℕ) (r : Result V Err) (n : ℕ)
        → n ≤ 1
        → Alone w n s
        → Alone w n (report_all pack s ctx d i r)
    unfolding report_all
    report_all-Alone s ctx d i r n le a = all_cell-Alone (s.cells d) s ctx d i r refl n le a

module _ {V Err : Type 0} (pack : List V → V) where
  -- Other cells stay as they are.
  pub report_any-others :
      (s : Store V Err) (ctx : Context) (d : Ref) (r : Result V Err) (b : Ref)
      → same_ref d b ≡ false
      → (report_any pack s ctx d r).cells b ≡ s.cells b
  unfolding report_any report_any_cell
  report_any-others s ctx d r b e = at (s.cells d)
    where
      at : (x : ICell V Err) → (report_any_cell pack x s ctx d r).cells b ≡ s.cells b
      at (any k) = rw e refl
      at (all k) = refl
      at (once k) = refl
      at (tracking t) = refl

  pub report_all-others :
      (s : Store V Err) (ctx : Context) (d : Ref) (i : ℕ) (r : Result V Err) (b : Ref)
      → same_ref d b ≡ false
      → (report_all pack s ctx d i r).cells b ≡ s.cells b
  unfolding report_all report_all_cell
  report_all-others s ctx d i r b e = at (s.cells d)
    where
      at : (x : ICell V Err) → (report_all_cell pack x s ctx d i r).cells b ≡ s.cells b
      at (all k) = rw e refl
      at (any k) = refl
      at (once k) = refl
      at (tracking t) = refl

module _ {V Err : Type 0} (blank : V) (pack : List V → V) (Src : ℕ → Result V Err → Type 0)
    (User : ℕ → Result V Err → Type 0) where
  AllFail-at :
      (ps : Progs V)
      → ((i : ℕ) → i < how_many ps → (x : Err) × Means blank pack Src (prog_at ps i) (error x))
      → AllFail blank pack Src ps
  unfolding AllFail
  AllFail-at nil h = tt
  AllFail-at (cons p ps) h = (h 0 (omega arith), AllFail-at ps (λ i lt. h (suc i) (omega arith)))

  AllGive-at :
      (ps : Progs V) (vs : List V)
      → length vs ≡ how_many ps
      → ((i : ℕ)
          → i < how_many ps
          → Means blank pack Src (prog_at ps i) (value (get_or vs i blank)))
      → AllGive blank pack Src ps vs
  unfolding AllGive
  AllGive-at nil [] e h = tt
  AllGive-at nil (v ∷ vs) e h = absurd (omega (arith, e))
  AllGive-at (cons p ps) [] e h = absurd (omega (arith, e))
  AllGive-at (cons p ps) (v ∷ vs) e h =
      (h 0 (omega arith), AllGive-at ps vs (omega (arith, e)) (λ i lt. h (suc i) (omega arith)))

  -- The error of the last task that fails.
  pub any_last :
      (p : Prog V) (left : ℕ → Bool) (i : ℕ) (x : Err) (k : WhenAnyCell (Callback V) V Err)
      → Tally blank pack Src p left (of_any k.exe_ctx)
      → left i ≡ true
      → InAny blank pack Src User p i (error x)
      → leb k.exe_ctx.total_cells (add_size k.exe_ctx.num_erroneous_cells 1) ≡ true
      → Means blank pack Src p (error x)
  unfolding Means
  any_last (Prog.when_any ps) left i x k t l m last =
      let full : leb (how_many ps) (add_size k.exe_ctx.num_erroneous_cells 1) ≡ true =
        subst (λ n. leb n (add_size k.exe_ctx.num_erroneous_cells 1) ≡ true) t.total last in
      (
        Some-at blank pack Src User ps i (error x) m.0 m.1,
        AllFail-at ps (λ j lt. elim (last-Count i t.count l m.0 full j lt) [
          | inl e ↦ (x, subst (λ a. Means blank pack Src (prog_at ps a) (error x)) (sym e) m.1)
          | inr e ↦ t.fails j lt e
        ]),
      )
  any_last (Prog.when_all ps) left i x k t l m last = absurd m
  any_last (Prog.source n) left i x k t l m last = absurd m
  any_last (Prog.create v) left i x k t l m last = absurd m
  any_last (Prog.map p f) left i x k t l m last = absurd m
  any_last (Prog.bind p f) left i x k t l m last = absurd m

  -- What the places have, when one has told.
  filled :
      (ps : Progs V) (left : ℕ → Bool) (i : ℕ) (v : V) (k : WhenAllCell (Callback V) V Err)
      (t : AllTally blank pack Src ps left k.execution_context)
      → i < how_many ps
      → Means blank pack Src (prog_at ps i) (value v)
      → (j : ℕ) → j < how_many ps
      → (j ≡ i) ⊎ (t.told j ≡ true)
      → Means blank pack Src
          (prog_at ps j)
          (value (get_or (set k.execution_context.resolved_values i v) j blank))
  filled ps left i v k t lt m j jn case = elim (Bool-cases (j == i)) [
    | inl e ↦
        let same : j ≡ i = equal e in
        let here =
          get_or-set_self k.execution_context.resolved_values i v blank (omega (arith, t.room)) in
        subst
          (λ a.
            Means blank pack Src (prog_at ps a)
              (value (get_or (set k.execution_context.resolved_values i v) a blank)))
          (sym same) (subst (λ u. Means blank pack Src (prog_at ps i) (value u)) (sym here) m)
    | inr e ↦
        let there = get_or-set_ne k.execution_context.resolved_values i j v blank (ground arith) in
        subst (λ u. Means blank pack Src (prog_at ps j) (value u)) (sym there)
          (elim case [ inl same ↦ absurd (ground arith) | inr told ↦ t.gives j jn told ])
  ]

  -- The values of all tasks.
  pub all_last :
      (p : Prog V) (left : ℕ → Bool) (i : ℕ) (v : V) (k : WhenAllCell (Callback V) V Err)
      → Tally blank pack Src p left (of_all k.execution_context)
      → left i ≡ true
      → InAll blank pack Src User p i (value v)
      → leb k.execution_context.total_cells (add_size k.execution_context.num_resolved_cells 1)
        ≡ true
      → Means blank pack Src p (value (pack (set k.execution_context.resolved_values i v)))
  unfolding Means
  all_last (Prog.when_all ps) left i v k t l m last =
      let full : leb (how_many ps) (add_size k.execution_context.num_resolved_cells 1) ≡ true =
        subst (λ n. leb n (add_size k.execution_context.num_resolved_cells 1) ≡ true) t.total
          last in
      let vs = set k.execution_context.resolved_values i v in
      (
        vs,
        AllGive-at ps vs (length-set k.execution_context.resolved_values i v ∙ t.room)
            (λ j lt. filled ps left i v k t m.0 m.1 j lt (last-Count i t.count l m.0 full j lt)),
        refl,
      )
  all_last (Prog.when_any ps) left i v k t l m last = absurd m
  all_last (Prog.source n) left i v k t l m last = absurd m
  all_last (Prog.create u) left i v k t l m last = absurd m
  all_last (Prog.map p f) left i v k t l m last = absurd m
  all_last (Prog.bind p f) left i v k t l m last = absurd m

  pub told_any :
      (p : Prog V) (left : ℕ → Bool) (i : ℕ) (x : Err) (ctx : Context)
      (k : WhenAnyCell (Callback V) V Err)
      → Tally blank pack Src p left (of_any k.exe_ctx)
      → left i ≡ true
      → InAny blank pack Src User p i (error x)
      → Tally blank pack Src p
          (unmark left i)
          (of_any (WhenAny.on_result k ctx (error x)).0.exe_ctx)
  unfolding WhenAny.on_result WhenAny.on_error log_error
  told_any (Prog.when_any ps) left i x ctx k t l m =
      let e' = (log_error k.exe_ctx).1 in
      let new : AnyTally blank pack Src ps (unmark left i) e' = record {
        total = t.total;
        told = mark t.told i;
        count = told-Count i t.count l m.0;
        fails = λ j lt told. elim (Bool-cases (j == i)) [
          | inl e ↦
              (x, subst (λ a. Means blank pack Src (prog_at ps a) (error x)) (sym (equal e)) m.1)
          | inr e ↦ t.fails j lt (sym (mark_other t.told i j e) ∙ told)
        ];
      } in
      elim (Bool-cases (leb k.exe_ctx.total_cells (add_size k.exe_ctx.num_erroneous_cells 1))) [
        | inl e ↦ rw (e, WhenAny.on_error) new
        | inr e ↦ rw (e, WhenAny.on_error) new
      ]
  told_any (Prog.when_all ps) left i x ctx k t l m = absurd m
  told_any (Prog.source n) left i x ctx k t l m = absurd m
  told_any (Prog.create v) left i x ctx k t l m = absurd m
  told_any (Prog.map p f) left i x ctx k t l m = absurd m
  told_any (Prog.bind p f) left i x ctx k t l m = absurd m

  pub told_all :
      (p : Prog V) (left : ℕ → Bool) (i : ℕ) (v : V) (ctx : Context)
      (k : WhenAllCell (Callback V) V Err)
      → Tally blank pack Src p left (of_all k.execution_context)
      → left i ≡ true
      → InAll blank pack Src User p i (value v)
      → Tally blank pack Src p
          (unmark left i)
          (of_all (WhenAll.on_result k ctx i (value v)).0.execution_context)
  unfolding WhenAll.on_result WhenAll.on_value commit_resolved_value
  told_all (Prog.when_all ps) left i v ctx k t l m =
      let e' = (commit_resolved_value k.execution_context i v).1 in
      let new : AllTally blank pack Src ps (unmark left i) e' = record {
        total = t.total;
        room = length-set k.execution_context.resolved_values i v ∙ t.room;
        told = mark t.told i;
        count = told-Count i t.count l m.0;
        gives = λ j lt told. filled ps left i v k t m.0 m.1 j lt (elim (Bool-cases (j == i)) [
          | inl e ↦ inl (equal e)
          | inr e ↦ inr (sym (mark_other t.told i j e) ∙ told)
        ]);
      } in
      elim (Bool-cases
        (leb k.execution_context.total_cells (add_size k.execution_context.num_resolved_cells 1))) [
          | inl e ↦ rw (e, WhenAll.on_value) new
          | inr e ↦ rw (e, WhenAll.on_value) new
        ]
  told_all (Prog.when_any ps) left i v ctx k t l m = absurd m
  told_all (Prog.source n) left i v ctx k t l m = absurd m
  told_all (Prog.create u) left i v ctx k t l m = absurd m
  told_all (Prog.map p f) left i v ctx k t l m = absurd m
  told_all (Prog.bind p f) left i v ctx k t l m = absurd m
