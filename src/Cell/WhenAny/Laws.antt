-- ===== src/Cell/WhenAny/Laws.antt =====
-- The result of a cell made by `when_any`, after the results of its cells in any order.
use async_ery.Base.{
  ℕ, zero, suc, ◌+◌, ◌^◌, ◌≤◌, ◌<◌, ◌≡◌, refl, true, false, Option, none, some, List, [], ◌∷◌,
  length, leb, add_size, arith, Bool-cases, mod_below, inl, inr,
}
use async_ery.Cell.Result.{Result, value, error}
use async_ery.Cell.WriteOnce.{write, write_error, write_result_to_value, write_result_at}
use async_ery.Scheduler.Context.{Context}
use async_ery.Cell.WhenAny.{
  WhenAnyCell, WhenAnyExecutionContext, make, on_result, on_error, on_value, log_error,
}

-- What `when_any` promises while `remaining` cells have not reported: the first value, or the error
-- of the last cell when every cell fails.
unfoldable pub promised {ℓ} :
    {T Err : Type ℓ} → ℕ → List (Context × Result T Err) → Option (Result T Err)
promised remaining [] = none
promised remaining ((ctx, value v) ∷ events) = some (value v)
promised zero ((ctx, error x) ∷ events) = none
promised (suc zero) ((ctx, error x) ∷ events) = some (error x)
promised (suc (suc remaining)) ((ctx, error x) ∷ events) = promised (suc remaining) events

module _ {ℓ} {C T Err : Type ℓ} where
  -- The results of the cells, in the order in which the scheduler runs the callbacks.
  pub run : WhenAnyCell C T Err → List (Context × Result T Err) → WhenAnyCell C T Err
  run w [] = w
  run w ((ctx, result) ∷ events) = run (on_result w ctx result).0 events

  abbrev at : WhenAnyExecutionContext → Option (Result T Err) → List C → WhenAnyCell C T Err
  at e v cs = record { exe_ctx = e; underlying_cell = record { value = v; callbacks = cs } }

  filled :
      (events : List (Context × Result T Err)) (e : WhenAnyExecutionContext) (r : Result T Err)
      (cs : List C)
      → (run (at e (some r) cs) events).underlying_cell.value ≡ some r
  unfolding run on_result on_value on_error log_error write write_error write_result_to_value
      write_result_at
  filled [] e r cs = refl
  filled ((ctx, value v) ∷ events) e r cs = filled events e r cs
  filled ((ctx, error x) ∷ events) e r cs =
      elim (Bool-cases (leb e.total_cells (add_size e.num_erroneous_cells 1))) [
        | inl h ↦ rw (h, run, on_error) (filled events (log_error e).1 r cs)
        | inr h ↦ rw (h, run, on_error) (filled events (log_error e).1 r cs)
      ]

  resolves :
      (events : List (Context × Result T Err)) (n k remaining : ℕ) (cs : List C)
      → n < 2 ^ 64
      → k + remaining ≡ n
      → length events ≤ remaining
      → (run
          (at (record { num_erroneous_cells = k; total_cells = n }) none cs)
          events).underlying_cell.value
        ≡ promised remaining events
  unfolding run on_result on_value on_error log_error write write_error write_result_to_value
      write_result_at promised
  resolves [] n k remaining cs small all h = refl
  resolves ((ctx, value v) ∷ events) n k remaining cs small all h = filled events _ (value v) []
  resolves ((ctx, error x) ∷ events) n k zero cs small all h = absurd (omega arith)
  resolves ((ctx, error x) ∷ events) n k (suc zero) cs small all h =
      let last : leb n (add_size k 1) ≡ true =
        ground (arith, mod_below (k + 1) (2 ^ 64) (omega arith)) in
      rw (last, run, on_error) (filled events _ (error x) [])
  resolves ((ctx, error x) ∷ events) n k (suc (suc remaining)) cs small all h =
      let one : add_size k 1 ≡ k + 1 = mod_below (k + 1) (2 ^ 64) (omega arith) in
      let more : leb n (add_size k 1) ≡ false = ground (arith, one) in
      rw (more, run, on_error, one)
        (resolves events n (k + 1) (suc remaining) cs small (omega arith) (omega arith))

-- While at most `n` results have come, in any order, a cell made of `n` cells (`n` below `2 ^ 64`)
-- holds the first value; with no value among them it holds the last error when all `n` have failed,
-- and nothing before that.
pub when_any_lem {ℓ} :
    (C : Type ℓ) {T Err : Type ℓ} (n : ℕ) (events : List (Context × Result T Err))
    → n < 2 ^ 64
    → length events ≤ n
    → (run (make {C = C} n) events).underlying_cell.value ≡ promised n events
unfolding make
when_any_lem C n events small h = resolves events n 0 n [] small (omega arith) h
