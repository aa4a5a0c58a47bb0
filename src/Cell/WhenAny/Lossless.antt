-- ===== src/Cell/WhenAny/Lossless.antt =====
-- The callback of `when_any` loses no callback that waits for it.
use async_ery.Base.{
  suc, ◌^◌, ◌<◌, ◌≤◌, ◌≡◌, refl, false, arith, Bool-cases, inl, inr, leb, add_size,
}
use async_ery.Cell.Result.{Result, value, error}
use async_ery.Cell.WriteOnce.{write, write_error}
use async_ery.Cell.WriteOnce.Lossless.{
  Lossless, same-Lossless, write-Lossless, filled, filled-write,
}
use async_ery.Cell.WhenAny.{WhenAnyCell, on_result, on_value, on_error, log_error}
use async_ery.Scheduler.Context.{Context}

module _ {C T Err : Type 0} where
  pub on_result-Lossless :
      (k : WhenAnyCell C T Err) (ctx : Context) (r : Result T Err)
      → let (k', calls) = on_result k ctx r in Lossless k.underlying_cell k'.underlying_cell calls
  unfolding on_result on_value on_error log_error write write_error
  on_result-Lossless k ctx (value v) = write-Lossless k.underlying_cell ctx (value v)
  on_result-Lossless k ctx (error x) =
      elim (Bool-cases (leb k.exe_ctx.total_cells (add_size k.exe_ctx.num_erroneous_cells 1))) [
        | inl last ↦ rw (last, on_error) (write-Lossless k.underlying_cell ctx (error x))
        | inr more ↦ rw (more, on_error) (same-Lossless k.underlying_cell)
      ]

  -- While the cell stays unresolved, a report counts one failure more, and not all.
  pub on_result-counts :
      (k : WhenAnyCell C T Err) (ctx : Context) (r : Result T Err)
      → let (k', calls) = on_result k ctx r in
        (k'.exe_ctx.total_cells ≡ k.exe_ctx.total_cells)
        × (k.exe_ctx.num_erroneous_cells < k.exe_ctx.total_cells
            → k.exe_ctx.total_cells < 2 ^ 64
            → filled k'.underlying_cell.value ≡ false
            → (suc k.exe_ctx.num_erroneous_cells ≤ k'.exe_ctx.num_erroneous_cells)
              × k'.exe_ctx.num_erroneous_cells < k.exe_ctx.total_cells)
  unfolding on_result on_value on_error log_error write write_error
  on_result-counts k ctx (value v) =
      (refl, λ lt small e. absurd (cc (filled-write k.underlying_cell ctx (value v))))
  on_result-counts k ctx (error x) =
      elim (Bool-cases (leb k.exe_ctx.total_cells (add_size k.exe_ctx.num_erroneous_cells 1))) [
        | inl last ↦
            rw (last, on_error)
              (refl, λ lt small e. absurd (cc (filled-write k.underlying_cell ctx (error x))))
        | inr more ↦ rw (more, on_error) (refl, λ lt small e. ground arith)
      ]
