-- ===== src/Async/Owed/Writes.antt =====
-- Writing to a cell and the reports to joined cells lose no callback.
use async_ery.Base.{ℕ, ◌≡◌, refl, List, map}
use mathlib.Core.Option.{none-ne-some}
use async_ery.Cell.Result.{Result}
use async_ery.Cell.WriteOnce.{write_result_to_value}
use async_ery.Cell.WriteOnce.Lossless.{write-Lossless}
use async_ery.Cell.WhenAny
use async_ery.Cell.WhenAny.Lossless.{on_result-Lossless}
use async_ery.Cell.WhenAll
use async_ery.Cell.WhenAll.Lossless as Joined
use async_ery.Scheduler.Context.{Context}
use async_ery.Async.Store.{
  Ref, ICell, once, tracking, any, all, Store, job_of, packed_job_of, write, write_cell, report_any,
  report_any_cell, report_all, report_all_cell,
}
use async_ery.Async.Later.{once-Later, reported-Later, any-Counts, all-Counts}
use async_ery.Async.Sound.{In}
use async_ery.Async.Owed.{Tidy, Linked, Keeping, Keeping-refl}
use async_ery.Async.Owed.Change.{changed_keeps}
use async_ery.Async.Owed.Await.{as_job, as_packed_job}

module _ {V Err : Type 0} (pack : List V → V) (next : ℕ) where
  write_cell-Keeping :
      (x : ICell V Err) (s : Store V Err) (ctx : Context) (c : Ref) (r : Result V Err)
      → s.cells c ≡ x
      → Linked next s
      → Tidy x
      → Keeping next s (write_cell pack x s ctx c r)
  unfolding write_cell
  write_cell-Keeping (once k) s ctx c r same l tidy =
      let a = write-Lossless k ctx r in
      let k' = (write_result_to_value k ctx r).1 in
      let calls = (write_result_to_value k ctx r).2 in
      changed_keeps next s c (once k') l (once k) (map job_of calls) same
        (λ d e. absurd (none-ne-some d e)) (a.tidy tidy)
        (λ b m. as_job pack next b k'.callbacks calls (a.kept b m)) (once-Later k k' a.stays)
  write_cell-Keeping (tracking t) s ctx c r same l tidy = Keeping-refl next s l
  write_cell-Keeping (any k) s ctx c r same l tidy = Keeping-refl next s l
  write_cell-Keeping (all k) s ctx c r same l tidy = Keeping-refl next s l

  pub write-Keeping :
      (s : Store V Err) (ctx : Context) (c : Ref) (r : Result V Err)
      → Linked next s
      → In next c
      → Keeping next s (write pack s ctx c r)
  unfolding write
  write-Keeping s ctx c r l i = write_cell-Keeping (s.cells c) s ctx c r refl l (l.tidy c i)

  report_any_cell-Keeping :
      (x : ICell V Err) (s : Store V Err) (ctx : Context) (c : Ref) (r : Result V Err)
      → s.cells c ≡ x
      → Linked next s
      → Tidy x
      → Keeping next s (report_any_cell pack x s ctx c r)
  unfolding report_any_cell
  report_any_cell-Keeping (any k) s ctx c r same l tidy =
      let a = on_result-Lossless k ctx r in
      let k' = (WhenAny.on_result k ctx r).0 in
      let calls = (WhenAny.on_result k ctx r).1 in
      changed_keeps next s c (any k') l (any k) (map job_of calls) same
        (λ d e. absurd (none-ne-some d e)) (a.tidy tidy)
        (λ b m. as_job pack next b k'.underlying_cell.callbacks calls (a.kept b m))
        (reported-Later refl a.stays (λ d e. e) (any-Counts k ctx r))
  report_any_cell-Keeping (tracking t) s ctx c r same l tidy = Keeping-refl next s l
  report_any_cell-Keeping (once k) s ctx c r same l tidy = Keeping-refl next s l
  report_any_cell-Keeping (all k) s ctx c r same l tidy = Keeping-refl next s l

  pub report_any-Keeping :
      (s : Store V Err) (ctx : Context) (c : Ref) (r : Result V Err)
      → Linked next s
      → In next c
      → Keeping next s (report_any pack s ctx c r)
  unfolding report_any
  report_any-Keeping s ctx c r l i =
      report_any_cell-Keeping (s.cells c) s ctx c r refl l (l.tidy c i)

  report_all_cell-Keeping :
      (x : ICell V Err) (s : Store V Err) (ctx : Context) (c : Ref) (i : ℕ) (r : Result V Err)
      → s.cells c ≡ x
      → Linked next s
      → Tidy x
      → Keeping next s (report_all_cell pack x s ctx c i r)
  unfolding report_all_cell
  report_all_cell-Keeping (all k) s ctx c i r same l tidy =
      let a = Joined.on_result-Lossless k ctx i r in
      let k' = (WhenAll.on_result k ctx i r).0 in
      let calls = (WhenAll.on_result k ctx i r).1 in
      changed_keeps next s c (all k') l (all k) (map (packed_job_of pack) calls) same
        (λ d e. absurd (none-ne-some d e)) (a.tidy tidy)
        (λ b m. as_packed_job pack next b k'.underlying_cell.callbacks calls (a.kept b m))
        (reported-Later refl a.stays (λ d e. e) (all-Counts k ctx i r))
  report_all_cell-Keeping (tracking t) s ctx c i r same l tidy = Keeping-refl next s l
  report_all_cell-Keeping (once k) s ctx c i r same l tidy = Keeping-refl next s l
  report_all_cell-Keeping (any k) s ctx c i r same l tidy = Keeping-refl next s l

  pub report_all-Keeping :
      (s : Store V Err) (ctx : Context) (c : Ref) (i : ℕ) (r : Result V Err)
      → Linked next s
      → In next c
      → Keeping next s (report_all pack s ctx c i r)
  unfolding report_all
  report_all-Keeping s ctx c i r l j =
      report_all_cell-Keeping (s.cells c) s ctx c i r refl l (l.tidy c j)
