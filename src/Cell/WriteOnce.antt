-- ===== src/Cell/WriteOnce.antt =====
-- src/cell/include/cell/write_once_cell.h. An operation is what a thread does while it holds the
-- mutex; the calls of the scheduler that it makes are returned in their order.
pub mod Laws
pub mod Held
pub mod Lossless
pub mod Moves
pub mod Block
use async_ery.Base.{Bool, true, false, Option, none, some, List, [], ◌∷◌, ◌++◌, map}
use async_ery.Cell.Result.{Result, value, error}
use async_ery.Scheduler.Context.{Context, empty}

-- A call `queue(ctx, job)` whose job is `callback(_, result)`.
pub record Delivery {ℓ} (C T Err : Type ℓ) : Type ℓ where
  pub ctx : Context
  pub callback : C
  pub result : Result T Err

pub record WriteOnceCell {ℓ} (C T Err : Type ℓ) : Type ℓ where
  pub value : Option (Result T Err)
  pub callbacks : List C

module _ {ℓ} {C T Err : Type ℓ} where
  -- The constructor.
  abbrev pub make : WriteOnceCell C T Err
  make = record { value = none; callbacks = [] }

  abbrev pub deliver : Context → Result T Err → C → Delivery C T Err
  deliver ctx result callback = record { ctx = ctx; callback = callback; result = result }

  unfoldable pub read : WriteOnceCell C T Err → Option (Result T Err)
  read c = c.value

  -- `write_result_to_value`, by whether the cell has a value.
  unfoldable pub write_result_at :
      Option (Result T Err)
      → WriteOnceCell C T Err
      → Context
      → Result T Err
      → Bool × WriteOnceCell C T Err × List (Delivery C T Err)
  write_result_at (some old) c ctx result = (false, c, [])
  write_result_at none c ctx result =
      (true, record { value = some result; callbacks = [] }, map (deliver ctx result) c.callbacks)

  unfoldable pub write_result_to_value :
      WriteOnceCell C T Err
      → Context
      → Result T Err
      → Bool × WriteOnceCell C T Err × List (Delivery C T Err)
  unfolding write_result_at
  write_result_to_value c ctx result = write_result_at c.value c ctx result

  unfoldable pub write :
      WriteOnceCell C T Err → Context → T → Bool × WriteOnceCell C T Err × List (Delivery C T Err)
  unfolding write_result_to_value
  write c ctx write_val = write_result_to_value c ctx (Result.value write_val)

  unfoldable pub write_error :
      WriteOnceCell C T Err → Context → Err → Bool × WriteOnceCell C T Err × List (Delivery C T Err)
  unfolding write_result_to_value
  write_error c ctx err = write_result_to_value c ctx (Result.error err)

  -- `await`, by whether the cell has a value.
  unfoldable await_at :
      Option (Result T Err)
      → WriteOnceCell C T Err
      → C
      → WriteOnceCell C T Err × List (Delivery C T Err)
  await_at (some value_inner) c callback = (c, deliver empty value_inner callback ∷ [])
  await_at none c callback = (record c { callbacks = c.callbacks ++ callback ∷ [] }, [])

  unfoldable pub await : WriteOnceCell C T Err → C → WriteOnceCell C T Err × List (Delivery C T Err)
  unfolding await_at
  await c callback = await_at c.value c callback
