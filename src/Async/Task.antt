-- ===== src/Async/Task.antt =====
-- include/async_lib/task.h. A task is the reference to its cell. Jobs run one at a time, in any order.
use async_ery.Base.{ℕ, suc, Option, ◌+◌, List, [], ◌∷◌, ◌++◌, length, ◌==◌, if◌then◌else◌}
use mathlib.Core.Option
use async_ery.Cell.Result.{Result, value, error, map_result}
use async_ery.Cell.WriteOnce
use async_ery.Cell.TrackingOnce
use async_ery.Cell.WhenAny
use async_ery.Cell.WhenAll
use async_ery.Scheduler.Context.{Context, empty}
use async_ery.Async.Program.{Prog, Progs, nil, cons, mapped}
use async_ery.Async.Store.{
  Ref, source, cell, Callback, map_to, bind_to, any_to, all_to, user, ICell, once, tracking, any,
  all, Work, call, compute, Job, Store, put, queue,
}
use async_ery.Async.Store

-- `next` is the number of the next cell that is allocated. `made` notes for each cell the expression
-- that it stands for; the statements read it, and the code does not.
pub record World (V Err : Type 0) : Type 0 where
  pub store : Store V Err
  pub next : ℕ
  pub made : ℕ → Prog V

abbrev pub made_of : {V : Type 0} → (ℕ → Prog V) → Ref → Prog V
made_of made (source k) = Prog.source k
made_of made (cell n) = made n

module _ {V Err : Type 0} where
  -- Every value source there is has its cell, and nothing has been called.
  abbrev pub initial : World V Err
  initial = record {
    store = record { cells = λ c. once WriteOnce.make; jobs = []; log = [] };
    next = 0;
    made = λ n. Prog.source 0;
  }

  abbrev pub program_of : World V Err → Ref → Prog V
  program_of w = made_of w.made

  abbrev pub programs_of : World V Err → List Ref → Progs V
  programs_of w [] = nil
  programs_of w (c ∷ cs) = cons (program_of w c) (programs_of w cs)

  -- `std::make_shared` of a cell.
  abbrev pub allocate : World V Err → ICell V Err → Prog V → World V Err
  allocate w x p = record {
    store = put w.store (cell w.next) x;
    next = suc w.next;
    made = λ n. if n == w.next then p else w.made n;
  }

  -- The constructor from a function that returns `v`.
  unfoldable pub create : World V Err → V → Ref × World V Err
  create w v =
      let w' = allocate w (once WriteOnce.make) (Prog.create v) in
      (
        cell w.next,
        record w' {
          store = queue w'.store (record { ctx = empty; work = compute (cell w.next) v } ∷ []);
        },
      )

  module _ (blank : V) (pack : List V → V) where
    -- `block`, once the thread goes on; `none` while it waits.
    unfoldable pub block : World V Err → Ref → Option (Result V Err)
    block w c = Option.map (λ r. map_result r value error) (Store.read pack (suc w.next) w.store c)

    -- Chains of tracking cells are no longer than the cells there are.
    unfoldable pub await : World V Err → Ref → Callback V → World V Err
    await w c callback = record w { store = Store.await pack (suc w.next) w.store c callback }

    unfoldable pub map : World V Err → Ref → (V → V) → Ref × World V Err
    unfolding await
    map w c func =
        let w' = allocate w (once WriteOnce.make) (Prog.map (program_of w c) func) in
        (cell w.next, await w' c (map_to (cell w.next) func))

    unfoldable pub bind : World V Err → Ref → (V → Prog V) → Ref × World V Err
    unfolding await
    bind w c func =
        let p = Prog.bind (program_of w c) func in
        let w' = allocate (allocate w (tracking TrackingOnce.make) p) (once WriteOnce.make) p in
        (cell w.next, await w' c (bind_to (cell w.next) (cell (suc w.next)) func))

    -- The loop of the constructor of WhenAnyCell, from cell `i` on.
    unfoldable pub await_any : ℕ → Store V Err → ℕ → List Ref → Ref → Store V Err
    await_any fuel s i [] d = s
    await_any fuel s i (c ∷ cs) d =
        await_any fuel (Store.await pack fuel s c (any_to d i)) (i + 1) cs d

    unfoldable pub when_any : World V Err → List Ref → Ref × World V Err
    unfolding await_any
    when_any w tasks =
        let w' =
          allocate w (any (WhenAny.make (length tasks))) (Prog.when_any (programs_of w tasks)) in
        (cell w.next, record w' { store = await_any (suc w'.next) w'.store 0 tasks (cell w.next) })

    -- The loop of the constructor of WhenAllCell, from cell `i` on.
    unfoldable pub await_all : ℕ → Store V Err → ℕ → List Ref → Ref → Store V Err
    await_all fuel s i [] d = s
    await_all fuel s i (c ∷ cs) d =
        await_all fuel (Store.await pack fuel s c (all_to d i)) (i + 1) cs d

    unfoldable pub when_all : World V Err → List Ref → Ref × World V Err
    unfolding await_all
    when_all w tasks =
        let w' =
          allocate w (all (WhenAll.make blank (length tasks)))
            (Prog.when_all (programs_of w tasks)) in
        (cell w.next, record w' { store = await_all (suc w'.next) w'.store 0 tasks (cell w.next) })

    -- A client's function that returns a task.
    unfoldable mutual
      unfolding create map bind when_any when_all

      pub build : Prog V → World V Err → Ref × World V Err
      build (Prog.source k) w = (source k, w)
      build (Prog.create v) w = create w v
      build (Prog.map p func) w = let (c, w') = build p w in map w' c func
      build (Prog.bind p func) w = let (c, w') = build p w in bind w' c func
      build (Prog.when_any ps) w = let (cs, w') = build_all ps w in when_any w' cs
      build (Prog.when_all ps) w = let (cs, w') = build_all ps w in when_all w' cs

      pub build_all : Progs V → World V Err → List Ref × World V Err
      build_all nil w = ([], w)
      build_all (cons p ps) w =
          let (c, w') = build p w in let (cs, w'') = build_all ps w' in (c ∷ cs, w'')

    -- The callback of `bind`, by the result.
    unfoldable pub run_bind :
        World V Err → Context → Ref → Ref → (V → Prog V) → Result V Err → World V Err
    unfolding build
    run_bind w ctx t error_cell func (value v) =
        let (c, w') = build (func v) w in
        record w' { store = Store.track pack (suc w'.next) w'.store t c }
    run_bind w ctx t error_cell func (error e) =
        let s = Store.write pack w.store ctx error_cell (error e) in
        record w { store = Store.track pack (suc w.next) s t error_cell }

    -- A callback, called by a worker with its context.
    unfoldable pub run_callback : World V Err → Context → Callback V → Result V Err → World V Err
    unfolding run_bind
    run_callback w ctx (map_to d func) r = record w {
      store = Store.write pack w.store ctx d (mapped func r);
    }
    run_callback w ctx (bind_to t error_cell func) r = run_bind w ctx t error_cell func r
    run_callback w ctx (any_to d i) r = record w { store = Store.report_any pack w.store ctx d r }
    run_callback w ctx (all_to d i) r = record w { store = Store.report_all pack w.store ctx d i r }
    run_callback w ctx (user n) r = record w {
      store = record w.store { log = w.store.log ++ (n, r) ∷ [] };
    }

    unfoldable pub run_work : World V Err → Context → Work V Err → World V Err
    unfolding run_callback
    run_work w ctx (call callback r) = run_callback w ctx callback r
    run_work w ctx (compute d v) = record w { store = Store.write pack w.store ctx d (value v) }
