-- ===== src/Async/ValueSource.antt =====
-- include/async_lib/task_value_source.h. A value source is the number of its cell.
use async_ery.Base.{ℕ, List}
use async_ery.Cell.Result.{Result, value, error}
use async_ery.Scheduler.Context.{Context}
use async_ery.Async.Store.{Ref, source, Store, write}

pub record TaskValueSource : Type 0 where
  pub task_cell : ℕ

-- `create`: every task of the source has the same cell.
abbrev pub create : TaskValueSource → Ref
create src = source src.task_cell

module _ {V Err : Type 0} (pack : List V → V) where
  unfoldable pub complete : Store V Err → TaskValueSource → Context → V → Store V Err
  complete s src ctx v = write pack s ctx (create src) (value v)

  -- `error`
  unfoldable pub complete_error : Store V Err → TaskValueSource → Context → Err → Store V Err
  complete_error s src ctx e = write pack s ctx (create src) (error e)

  -- One or the other, by the result.
  unfoldable pub resolve : Store V Err → TaskValueSource → Context → Result V Err → Store V Err
  unfolding complete complete_error
  resolve s src ctx (value v) = complete s src ctx v
  resolve s src ctx (error e) = complete_error s src ctx e
