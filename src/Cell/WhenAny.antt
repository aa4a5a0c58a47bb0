-- ===== src/Cell/WhenAny.antt =====
-- src/cell/include/cell/when_any_cell.h. The callbacks of the cells share the execution context, and
-- write the underlying cell.
pub mod Laws
pub mod Held
pub mod Lossless
use async_ery.Base.{ℕ, ◌+◌, Bool, true, false, List, [], leb, add_size}
use async_ery.Cell.Result.{Result, value, error, visit_result}
use async_ery.Cell.WriteOnce.{Delivery, WriteOnceCell, write, write_error}
use async_ery.Cell.WriteOnce
use async_ery.Scheduler.Context.{Context}

pub record WhenAnyExecutionContext : Type 0 where
  pub num_erroneous_cells : ℕ
  pub total_cells : ℕ

pub record WhenAnyCell {ℓ} (C T Err : Type ℓ) : Type ℓ where
  pub exe_ctx : WhenAnyExecutionContext
  pub underlying_cell : WriteOnceCell C T Err

unfoldable pub log_error : WhenAnyExecutionContext → Bool × WhenAnyExecutionContext
log_error e = (
  leb e.total_cells (add_size e.num_erroneous_cells 1),
  record e { num_erroneous_cells = add_size e.num_erroneous_cells 1 },
)

module _ {ℓ} {C T Err : Type ℓ} where
  -- The constructor, for `n` cells.
  unfoldable pub make : ℕ → WhenAnyCell C T Err
  make n = record {
    exe_ctx = record { num_erroneous_cells = 0; total_cells = n };
    underlying_cell = WriteOnce.make;
  }

  unfoldable pub on_value :
      WhenAnyCell C T Err → Context → T → WhenAnyCell C T Err × List (Delivery C T Err)
  on_value w ctx v =
      let (ok, cell, calls) = write w.underlying_cell ctx v in
      (record w { underlying_cell = cell }, calls)

  unfoldable pub on_error :
      WhenAnyCell C T Err → Context → Err → WhenAnyCell C T Err × List (Delivery C T Err)
  unfolding log_error
  on_error w ctx err =
      let (all_cells_have_errored, e) = log_error w.exe_ctx in
      let (ok, cell, calls) = write_error w.underlying_cell ctx err in
      elim all_cells_have_errored [
        | true ↦ (record { exe_ctx = e; underlying_cell = cell }, calls)
        | false ↦ (record w { exe_ctx = e }, [])
      ]

  -- The callback that the constructor registers with each cell.
  unfoldable pub on_result :
      WhenAnyCell C T Err → Context → Result T Err → WhenAnyCell C T Err × List (Delivery C T Err)
  unfolding on_value on_error
  on_result w ctx result = visit_result result (on_value w ctx) (on_error w ctx)
