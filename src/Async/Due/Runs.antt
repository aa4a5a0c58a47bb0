-- ===== src/Async/Due/Runs.antt =====
-- What a job that runs does to what cells are due.
use async_ery.Base.{ℕ, suc, ◌≡◌, sym, ◌∙◌, ap, subst, true, List}
use async_ery.Cell.Result.{Result}
use async_ery.Cell.WriteOnce.{write_result_to_value}
use async_ery.Cell.WriteOnce.Lossless.{filled-write}
use async_ery.Scheduler.Context.{Context}
use async_ery.Async.Program.{Prog}
use async_ery.Async.Store.{
  Ref, Callback, map_to, bind_to, any_to, all_to, user, ICell, once, tracking, any, all, Work, call,
  compute, Store, write, write_cell, report_any, report_any_cell, report_all, report_all_cell,
}
use async_ery.Async.Task.{World}
use async_ery.Async.Later.{
  write_once, first_of, every_of, kind, valued, heard, Counts, any-Counts, all-Counts,
}
use async_ery.Async.Owed.{Calls, Computes}
use async_ery.Async.Owed.Change.{put_here}
use async_ery.Async.Due.Effects.{Written, Effect}

-- The function of a `bind`, and the cell and the place that a callback is for.
abbrev function_of : {V : Type 0} → (V → Prog V) → Prog V → V → Prog V
function_of g (Prog.bind p f) = f
function_of g (Prog.source k) = g
function_of g (Prog.create v) = g
function_of g (Prog.map p f) = g
function_of g (Prog.when_any ps) = g
function_of g (Prog.when_all ps) = g

abbrev place_of : {V : Type 0} → Callback V → ℕ
place_of (map_to c f) = 0
place_of (bind_to c e f) = 0
place_of (any_to c i) = i
place_of (all_to c i) = i
place_of (user n) = 0

pub same_function :
    {V : Type 0} {p q : Prog V} {f g : V → Prog V} → Prog.bind p f ≡ Prog.bind q g → f ≡ g
same_function {f = f} e = ap (function_of f) e

module _ {V Err : Type 0} where
  module _ (pack : List V → V) where
    write_cell-valued :
        (x : ICell V Err) (s : Store V Err) (ctx : Context) (c : Ref) (r : Result V Err)
        → kind x ≡ write_once
        → valued ((write_cell pack x s ctx c r).cells c) ≡ true
    unfolding write_cell
    write_cell-valued (once k) s ctx c r e =
        ap valued (put_here s c (once (write_result_to_value k ctx r).1)) ∙ filled-write k ctx r
    write_cell-valued (tracking t) s ctx c r e = absurd (cc e)
    write_cell-valued (any k) s ctx c r e = absurd (cc e)
    write_cell-valued (all k) s ctx c r e = absurd (cc e)

    pub write-valued :
        (s : Store V Err) (ctx : Context) (c : Ref) (r : Result V Err)
        → kind (s.cells c) ≡ write_once
        → valued ((write pack s ctx c r).cells c) ≡ true
    unfolding write
    write-valued s ctx c r e = write_cell-valued (s.cells c) s ctx c r e

    report_any_cell-Counts :
        (x : ICell V Err) (s : Store V Err) (ctx : Context) (c : Ref) (r : Result V Err)
        → kind x ≡ first_of
        → Counts (suc (heard x)) x ((report_any_cell pack x s ctx c r).cells c)
    unfolding report_any_cell
    report_any_cell-Counts (any k) s ctx c r e =
        subst (Counts (suc (heard (any k))) (any k)) (sym (put_here s c _)) (any-Counts k ctx r)
    report_any_cell-Counts (once k) s ctx c r e = absurd (cc e)
    report_any_cell-Counts (tracking t) s ctx c r e = absurd (cc e)
    report_any_cell-Counts (all k) s ctx c r e = absurd (cc e)

    pub report_any-Counts :
        (s : Store V Err) (ctx : Context) (c : Ref) (r : Result V Err)
        → kind (s.cells c) ≡ first_of
        → Counts (suc (heard (s.cells c))) (s.cells c) ((report_any pack s ctx c r).cells c)
    unfolding report_any
    report_any-Counts s ctx c r e = report_any_cell-Counts (s.cells c) s ctx c r e

    report_all_cell-Counts :
        (x : ICell V Err) (s : Store V Err) (ctx : Context) (c : Ref) (i : ℕ) (r : Result V Err)
        → kind x ≡ every_of
        → Counts (suc (heard x)) x ((report_all_cell pack x s ctx c i r).cells c)
    unfolding report_all_cell
    report_all_cell-Counts (all k) s ctx c i r e =
        subst (Counts (suc (heard (all k))) (all k)) (sym (put_here s c _)) (all-Counts k ctx i r)
    report_all_cell-Counts (once k) s ctx c i r e = absurd (cc e)
    report_all_cell-Counts (tracking t) s ctx c i r e = absurd (cc e)
    report_all_cell-Counts (any k) s ctx c i r e = absurd (cc e)

    pub report_all-Counts :
        (s : Store V Err) (ctx : Context) (c : Ref) (i : ℕ) (r : Result V Err)
        → kind (s.cells c) ≡ every_of
        → Counts (suc (heard (s.cells c))) (s.cells c) ((report_all pack s ctx c i r).cells c)
    unfolding report_all
    report_all-Counts s ctx c i r e = report_all_cell-Counts (s.cells c) s ctx c i r e

  -- What a job does.
  abbrev pub WorkEffect : World V Err → World V Err → Work V Err → Type 0
  WorkEffect w w' (call callback r) = Effect w w' callback
  WorkEffect w w' (compute c v) = Written w w' c

  pub call-Effect :
      (w w' : World V Err) (work : Work V Err) (other : Callback V)
      → Calls other work
      → WorkEffect w w' work
      → Effect w w' other
  call-Effect w w' (call callback r) other e x = subst (Effect w w') e x
  call-Effect w w' (compute c v) other e x = absurd e

  pub compute_effect :
      (w w' : World V Err) (work : Work V Err) (c : Ref) (v : V)
      → Computes c v work
      → WorkEffect w w' work
      → Written w w' c
  compute_effect w w' (call callback r) c v e x = absurd e
  compute_effect w w' (compute d u) c v e x = subst (Written w w') e.0 x

  pub one_place :
      (work : Work V Err) (a b : Callback V) → Calls a work → Calls b work → place_of a ≡ place_of b
  one_place (call callback r) a b e f = ap place_of (sym e ∙ f)
  one_place (compute c v) a b e f = absurd e
