-- ===== src/Cell/WhenAll/Lossless.antt =====
-- The callback of `when_all` loses no callback that waits for it.
use async_ery.Base.{
  suc, ◌^◌, ◌<◌, ◌≤◌, ◌≡◌, refl, false, arith, ℕ, Bool-cases, inl, inr, leb, add_size,
}
use async_ery.Cell.Result.{Result, value, error}
use async_ery.Cell.WriteOnce.{write, write_error}
use async_ery.Cell.WriteOnce.Lossless.{
  Lossless, same-Lossless, write-Lossless, filled, filled-write,
}
use async_ery.Cell.WhenAll.{WhenAllCell, on_result, on_value, on_error, commit_resolved_value}
use async_ery.Scheduler.Context.{Context}

module _ {C T Err : Type 0} where
  pub on_result-Lossless :
      (k : WhenAllCell C T Err) (ctx : Context) (i : ℕ) (r : Result T Err)
      → let (k', calls) = on_result k ctx i r in Lossless k.underlying_cell k'.underlying_cell calls
  unfolding on_result on_value on_error commit_resolved_value write write_error
  on_result-Lossless k ctx i (error x) = write-Lossless k.underlying_cell ctx (error x)
  on_result-Lossless k ctx i (value v) =
      elim (Bool-cases
        (leb k.execution_context.total_cells (add_size k.execution_context.num_resolved_cells 1))) [
          | inl last ↦ rw (last, on_value) (write-Lossless k.underlying_cell ctx (value _))
          | inr more ↦ rw (more, on_value) (same-Lossless k.underlying_cell)
        ]

  -- While the cell stays unresolved, a report counts one value more, and not all.
  pub on_result-counts :
      (k : WhenAllCell C T Err) (ctx : Context) (i : ℕ) (r : Result T Err)
      → let (k', calls) = on_result k ctx i r in
        (k'.execution_context.total_cells ≡ k.execution_context.total_cells)
        × (k.execution_context.num_resolved_cells < k.execution_context.total_cells
            → k.execution_context.total_cells < 2 ^ 64
            → filled k'.underlying_cell.value ≡ false
            → (suc k.execution_context.num_resolved_cells ≤ k'.execution_context.num_resolved_cells)
              × k'.execution_context.num_resolved_cells < k.execution_context.total_cells)
  unfolding on_result on_value on_error commit_resolved_value write write_error
  on_result-counts k ctx i (error x) =
      (refl, λ lt small e. absurd (cc (filled-write k.underlying_cell ctx (error x))))
  on_result-counts k ctx i (value v) =
      elim (Bool-cases
        (leb k.execution_context.total_cells (add_size k.execution_context.num_resolved_cells 1))) [
          | inl last ↦
              rw (last, on_value)
                (refl, λ lt small e. absurd (cc (filled-write k.underlying_cell ctx (value _))))
          | inr more ↦ rw (more, on_value) (refl, λ lt small e. ground arith)
        ]
