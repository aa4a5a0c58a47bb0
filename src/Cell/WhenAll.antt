-- ===== src/Cell/WhenAll.antt =====
-- src/cell/include/cell/when_all_cell.h. The callbacks of the cells share the execution context, and
-- write the underlying cell; a commit is one step, since each touches a slot of its own.
pub mod Slots
pub mod Laws
pub mod Held
pub mod Lossless
use async_ery.Base.{ℕ, Bool, true, false, List, [], set, replicate, leb, add_size}
use async_ery.Cell.Result.{Result, visit_result}
use async_ery.Cell.WriteOnce.{Delivery, WriteOnceCell, write, write_error}
use async_ery.Cell.WriteOnce
use async_ery.Scheduler.Context.{Context}

pub record WhenAllExecutionContext {ℓ} (T : Type ℓ) : Type ℓ where
  pub resolved_values : List T
  pub num_resolved_cells : ℕ
  pub total_cells : ℕ

pub record WhenAllCell {ℓ} (C T Err : Type ℓ) : Type ℓ where
  pub execution_context : WhenAllExecutionContext T
  pub underlying_cell : WriteOnceCell C (List T) Err

unfoldable pub commit_resolved_value {ℓ} :
    {T : Type ℓ} → WhenAllExecutionContext T → ℕ → T → Bool × WhenAllExecutionContext T
commit_resolved_value e cell_id v = (
  leb e.total_cells (add_size e.num_resolved_cells 1),
  record e {
    resolved_values = set e.resolved_values cell_id v;
    num_resolved_cells = add_size e.num_resolved_cells 1;
  },
)

module _ {ℓ} {C T Err : Type ℓ} where
  -- The constructor, for `n` cells; `blank` is the default value.
  unfoldable pub make : T → ℕ → WhenAllCell C T Err
  make blank n = record {
    execution_context = record {
      resolved_values = replicate n blank;
      num_resolved_cells = 0;
      total_cells = n;
    };
    underlying_cell = WriteOnce.make;
  }

  -- The success continuation of cell `cell_id`, and its error continuation.
  unfoldable pub on_value :
      WhenAllCell C T Err → Context → ℕ → T → WhenAllCell C T Err × List (Delivery C (List T) Err)
  unfolding commit_resolved_value
  on_value w ctx cell_id v =
      let (all_cells_resolved, e) = commit_resolved_value w.execution_context cell_id v in
      let (ok, cell, calls) = write w.underlying_cell ctx e.resolved_values in
      elim all_cells_resolved [
        | true ↦ (record { execution_context = e; underlying_cell = cell }, calls)
        | false ↦ (record w { execution_context = e }, [])
      ]

  unfoldable pub on_error :
      WhenAllCell C T Err → Context → Err → WhenAllCell C T Err × List (Delivery C (List T) Err)
  on_error w ctx err =
      let (ok, cell, calls) = write_error w.underlying_cell ctx err in
      (record w { underlying_cell = cell }, calls)

  -- The callback that the constructor registers with cell `cell_id`.
  unfoldable pub on_result :
      WhenAllCell C T Err
      → Context
      → ℕ
      → Result T Err
      → WhenAllCell C T Err × List (Delivery C (List T) Err)
  unfolding on_value on_error
  on_result w ctx cell_id result = visit_result result (on_value w ctx cell_id) (on_error w ctx)
