-- ===== src/Cell/WriteOnce/Laws.antt =====
-- Histories of calls on a write-once cell, and what they should do.
use async_ery.Base.{
  ℕ, suc, ◌≡◌, refl, ap, ◌∙◌, Option, none, some, List, [], ◌∷◌, ◌++◌, map, if◌then◌else◌,
}
use async_ery.Cell.Result.{Result}
use async_ery.Scheduler.Context.{Context, empty}
use async_ery.Cell.WriteOnce.{
  Delivery, WriteOnceCell, deliver, write_result_to_value, write_result_at, await, await_at,
}

-- The calls on one cell, in the order in which they get the mutex.
pub data Op {ℓ} (C T Err : Type ℓ) : Type ℓ where
  writes : Context → Result T Err → Op C T Err
  awaits : C → Op C T Err

module _ {ℓ} {C T Err : Type ℓ} where
  -- How many writes succeed, the cell at the end, and the calls of the scheduler.
  pub run :
      WriteOnceCell C T Err
      → List (Op C T Err)
      → ℕ × WriteOnceCell C T Err × List (Delivery C T Err)
  run c [] = (0, c, [])
  run c (writes ctx result ∷ ops) =
      let (ok, c', now) = write_result_to_value c ctx result in
      let (wins, c'', later) = run c' ops in ((if ok then suc wins else wins), c'', now ++ later)
  run c (awaits callback ∷ ops) =
      let (c', now) = await c callback in
      let (wins, c'', later) = run c' ops in (wins, c'', now ++ later)

  -- The callbacks of a history.
  abbrev awaited : List (Op C T Err) → List C
  awaited [] = []
  awaited (writes ctx result ∷ ops) = awaited ops
  awaited (awaits callback ∷ ops) = callback ∷ awaited ops

  -- What a write-once cell promises, when `pending` waits: at the first write those that wait are
  -- called with its context, and the later ones with an empty one as they come.
  unfoldable pub promised :
      List C → List (Op C T Err) → ℕ × WriteOnceCell C T Err × List (Delivery C T Err)
  promised pending [] = (0, record { value = none; callbacks = pending }, [])
  promised pending (awaits callback ∷ ops) = promised (pending ++ callback ∷ []) ops
  promised pending (writes ctx result ∷ ops) = (
    1,
    record { value = some result; callbacks = [] },
    map (deliver ctx result) pending ++ map (deliver empty result) (awaited ops),
  )

  filled :
      (result : Result T Err) (ops : List (Op C T Err))
      → run (record { value = some result; callbacks = [] }) ops ≡ (
        0,
        record { value = some result; callbacks = [] },
        map (deliver empty result) (awaited ops),
      )
  unfolding run write_result_to_value await
  filled result [] = refl
  filled result (writes ctx other ∷ ops) = filled result ops
  filled result (awaits callback ∷ ops) =
      ap (λ r. (r.0, r.1, deliver empty result callback ∷ r.2)) (filled result ops)

  -- In every history of a cell with no value, whose callbacks `pending` wait, the first write, and
  -- no other, succeeds and stays; each callback is scheduled once with its result, in the order of the
  -- calls, those that waited with the writer's context; if nothing is written, all of them wait.
  pub write_once_refines :
      (pending : List C) (ops : List (Op C T Err))
      → run (record { value = none; callbacks = pending }) ops ≡ promised pending ops
  unfolding run promised write_result_to_value await
  write_once_refines pending [] = refl
  write_once_refines pending (writes ctx result ∷ ops) =
      ap (λ r. (suc r.0, r.1, map (deliver ctx result) pending ++ r.2)) (filled result ops)
  write_once_refines pending (awaits callback ∷ ops) =
      write_once_refines (pending ++ callback ∷ []) ops

  -- The result that a history writes first.
  unfoldable pub first_written : List (Op C T Err) → Option (Result T Err)
  first_written [] = none
  first_written (awaits callback ∷ ops) = first_written ops
  first_written (writes ctx result ∷ ops) = some result

  pub value-run :
      (pending : List C) (ops : List (Op C T Err))
      → (run (record { value = none; callbacks = pending }) ops).1.value ≡ first_written ops
  unfolding promised first_written
  value-run pending ops = ap (λ r. r.1.value) (write_once_refines pending ops) ∙ kept pending ops
    where
      kept :
          (pending : List C) (ops : List (Op C T Err))
          → (promised pending ops).1.value ≡ first_written ops
      kept pending [] = refl
      kept pending (awaits callback ∷ ops) = kept (pending ++ callback ∷ []) ops
      kept pending (writes ctx result ∷ ops) = refl

  -- A value stays, whatever callbacks wait.
  pub run-filled :
      (result : Result T Err) (ops : List (Op C T Err)) (c : WriteOnceCell C T Err)
      → c.value ≡ some result
      → (run c ops).1.value ≡ some result
  unfolding run write_result_to_value await
  run-filled result [] c e = e
  run-filled result (writes ctx other ∷ ops) c e =
      run-filled result ops (write_result_to_value c ctx other).1 (rw (e, write_result_at) refl)
  run-filled result (awaits callback ∷ ops) c e =
      run-filled result ops (await c callback).0 (rw (e, await_at) refl)
