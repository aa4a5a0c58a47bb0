-- ===== src/Async/Sound/Reports.antt =====
-- The reports to the cells of `when_any` and `when_all` keep the store sound.
use async_ery.Base.{ℕ, ◌≡◌, true, List, set, leb, add_size}
use async_ery.Cell.Result.{Result, value, error}
use async_ery.Cell.WhenAny
use async_ery.Cell.WhenAny.{WhenAnyCell}
use async_ery.Cell.WhenAny.Held as AnyHeld
use async_ery.Cell.WhenAll
use async_ery.Cell.WhenAll.{WhenAllCell}
use async_ery.Cell.WhenAll.Held as AllHeld
use async_ery.Scheduler.Context.{Context}
use async_ery.Async.Program.{Prog}
use async_ery.Async.Store.{
  Ref, ICell, once, tracking, any, all, Store, packed, report_any, report_any_cell, report_all,
  report_all_cell,
}
use async_ery.Async.Sound.{In, May, AllFits, AnyFits}
use async_ery.Async.Sound.Cells.{Keeps, Holds, Suits, Q, F, meets, changed, changed_packed}

module _ {V Err : Type 0} (blank : V) (pack : List V → V) (Src : ℕ → Result V Err → Type 0)
    (User : ℕ → Result V Err → Type 0) (made : ℕ → Prog V) (next : ℕ) where
  -- What the report that completes a join has to know.
  abbrev pub AnyLast : ICell V Err → Ref → Result V Err → Type 0
  AnyLast (any k) d (error x) =
      leb k.exe_ctx.total_cells (add_size k.exe_ctx.num_erroneous_cells 1) ≡ true
      → May blank pack Src User made next d (error x)
  AnyLast (any k) d (value v) = Unit
  AnyLast (all k) d r = Unit
  AnyLast (once k) d r = Unit
  AnyLast (tracking t) d r = Unit

  abbrev pub AllLast : ICell V Err → Ref → ℕ → Result V Err → Type 0
  AllLast (all k) d i (value v) =
      leb k.execution_context.total_cells (add_size k.execution_context.num_resolved_cells 1) ≡ true
      → May blank pack Src User made next d
          (value (pack (set k.execution_context.resolved_values i v)))
  AllLast (all k) d i (error x) = Unit
  AllLast (any k) d i r = Unit
  AllLast (once k) d i r = Unit
  AllLast (tracking t) d i r = Unit

  told_all_sound :
      (k : WhenAllCell _ V Err) (s : Store V Err) (ctx : Context) (d : Ref) (i : ℕ)
      (r : Result V Err)
      → Keeps blank pack Src User made next s
      → Holds blank pack Src User made next d (all k)
      → AllFits blank pack Src User made next d i r
      → AllLast (all k) d i r
      → Keeps blank pack Src User made next (report_all_cell pack (all k) s ctx d i r)
  unfolding report_all_cell
  told_all_sound k s ctx d i (value v) w h m last =
      let embed = packed {Err = Err} pack in
      let held =
        AllHeld.on_value-Held (Q blank pack Src User made next (List V) embed d)
          (Suits blank pack Src User made next d) (F blank pack Src User made next (List V) embed d)
          (meets blank pack Src User made next (List V) embed d) k ctx i v h last in
      let k' = (WhenAll.on_result k ctx i (value v)).0 in
      changed_packed blank pack Src User made next s d (all k')
        (WhenAll.on_result k ctx i (value v)).1 w held.0 held.1
  told_all_sound k s ctx d i (error x) w h m last =
      let embed = packed {Err = Err} pack in
      let held =
        AllHeld.on_error-Held (Q blank pack Src User made next (List V) embed d)
          (Suits blank pack Src User made next d) (F blank pack Src User made next (List V) embed d)
          (meets blank pack Src User made next (List V) embed d) k ctx i x h m in
      let k' = (WhenAll.on_result k ctx i (error x)).0 in
      changed_packed blank pack Src User made next s d (all k')
        (WhenAll.on_result k ctx i (error x)).1 w held.0 held.1

  told_any_sound :
      (k : WhenAnyCell _ V Err) (s : Store V Err) (ctx : Context) (d : Ref) (i : ℕ)
      (r : Result V Err)
      → Keeps blank pack Src User made next s
      → Holds blank pack Src User made next d (any k)
      → AnyFits blank pack Src User made next d i r
      → AnyLast (any k) d r
      → Keeps blank pack Src User made next (report_any_cell pack (any k) s ctx d r)
  unfolding report_any_cell
  told_any_sound k s ctx d i (value v) w h m last =
      let held =
        AnyHeld.on_value-Held (Q blank pack Src User made next V (λ q. q) d)
          (Suits blank pack Src User made next d) (F blank pack Src User made next V (λ q. q) d)
          (meets blank pack Src User made next V (λ q. q) d) k ctx v h m in
      changed blank pack Src User made next s d (any (WhenAny.on_result k ctx (value v)).0)
        (WhenAny.on_result k ctx (value v)).1 w held.0 held.1
  told_any_sound k s ctx d i (error x) w h m last =
      let held =
        AnyHeld.on_error-Held (Q blank pack Src User made next V (λ q. q) d)
          (Suits blank pack Src User made next d) (F blank pack Src User made next V (λ q. q) d)
          (meets blank pack Src User made next V (λ q. q) d) k ctx x h last in
      changed blank pack Src User made next s d (any (WhenAny.on_result k ctx (error x)).0)
        (WhenAny.on_result k ctx (error x)).1 w held.0 held.1

  report_any_cell_sound :
      (x : ICell V Err) (s : Store V Err) (ctx : Context) (d : Ref) (i : ℕ) (r : Result V Err)
      → Keeps blank pack Src User made next s
      → Holds blank pack Src User made next d x
      → AnyFits blank pack Src User made next d i r
      → AnyLast x d r
      → Keeps blank pack Src User made next (report_any_cell pack x s ctx d r)
  unfolding report_any_cell
  report_any_cell_sound (any k) s ctx d i r w h m last = told_any_sound k s ctx d i r w h m last
  report_any_cell_sound (all k) s ctx d i r w h m last = w
  report_any_cell_sound (once k) s ctx d i r w h m last = w
  report_any_cell_sound (tracking t) s ctx d i r w h m last = w

  pub report_any_sound :
      (s : Store V Err) (ctx : Context) (d : Ref) (i : ℕ) (r : Result V Err)
      → In next d
      → AnyFits blank pack Src User made next d i r
      → AnyLast (s.cells d) d r
      → Keeps blank pack Src User made next s
      → Keeps blank pack Src User made next (report_any pack s ctx d r)
  unfolding report_any
  report_any_sound s ctx d i r h m last w =
      report_any_cell_sound (s.cells d) s ctx d i r w (w.cells d h) m last

  report_all_cell_sound :
      (x : ICell V Err) (s : Store V Err) (ctx : Context) (d : Ref) (i : ℕ) (r : Result V Err)
      → Keeps blank pack Src User made next s
      → Holds blank pack Src User made next d x
      → AllFits blank pack Src User made next d i r
      → AllLast x d i r
      → Keeps blank pack Src User made next (report_all_cell pack x s ctx d i r)
  unfolding report_all_cell
  report_all_cell_sound (all k) s ctx d i r w h m last = told_all_sound k s ctx d i r w h m last
  report_all_cell_sound (any k) s ctx d i r w h m last = w
  report_all_cell_sound (once k) s ctx d i r w h m last = w
  report_all_cell_sound (tracking t) s ctx d i r w h m last = w

  pub report_all_sound :
      (s : Store V Err) (ctx : Context) (d : Ref) (i : ℕ) (r : Result V Err)
      → In next d
      → AllFits blank pack Src User made next d i r
      → AllLast (s.cells d) d i r
      → Keeps blank pack Src User made next s
      → Keeps blank pack Src User made next (report_all pack s ctx d i r)
  unfolding report_all
  report_all_sound s ctx d i r h m last w =
      report_all_cell_sound (s.cells d) s ctx d i r w (w.cells d h) m last
