-- ===== src/Cell/WriteOnce/Moves.antt =====
-- Where the callbacks of a write-once cell go, by the weight of each: they wait or are called.
use async_ery.Base.{
  ℕ, ◌+◌, ◌≡◌, ◌⊎◌, inl, inr, refl, Option, none, some, List, [], ◌∷◌, total, total-append,
  total-map, arith,
}
use async_ery.Cell.Result.{Result}
use async_ery.Cell.WriteOnce.{
  Delivery, WriteOnceCell, deliver, await, await_at, write_result_at, write_result_to_value,
}
use async_ery.Scheduler.Context.{Context}

module _ {C T Err : Type 0} (w : C → ℕ) where
  abbrev pub calls_load : List (Delivery C T Err) → ℕ
  calls_load calls = total (λ d. w d.callback) calls

  abbrev pub CellMoves :
      ℕ → WriteOnceCell C T Err → WriteOnceCell C T Err → List (Delivery C T Err) → Type 0
  CellMoves m k k' calls =
      ((calls_load calls ≡ 0) × (total w k'.callbacks ≡ total w k.callbacks + m))
      ⊎ ((total w k'.callbacks ≡ total w k.callbacks) × (calls_load calls ≡ m))
      ⊎ ((total w k'.callbacks ≡ 0) × (calls_load calls ≡ total w k.callbacks + m))

  pub await-CellMoves :
      (k : WriteOnceCell C T Err) (callback : C)
      → let (k', calls) = await k callback in CellMoves (w callback) k k' calls
  unfolding await
  await-CellMoves k callback = at k.value
    where
      at :
          (o : Option (Result T Err))
          → let (k', calls) = await_at o k callback in CellMoves (w callback) k k' calls
      at (some r) = inr (inl (refl, omega arith))
      at none = inl (refl, omega (arith, total-append w k.callbacks (callback ∷ [])))

  pub write-CellMoves :
      (k : WriteOnceCell C T Err) (ctx : Context) (r : Result T Err)
      → let (ok, k', calls) = write_result_to_value k ctx r in CellMoves 0 k k' calls
  unfolding write_result_to_value
  write-CellMoves k ctx r = at k.value
    where
      at :
          (o : Option (Result T Err))
          → let (ok, k', calls) = write_result_at o k ctx r in CellMoves 0 k k' calls
      at (some old) = inl (refl, omega arith)
      at none = inr (
          inr (
            refl,
            omega (
              arith,
              total-map (λ (d : Delivery C T Err). w d.callback) (deliver ctx r) k.callbacks,
            ),
          ))
