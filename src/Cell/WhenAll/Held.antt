-- ===== src/Cell/WhenAll/Held.antt =====
-- What the cell of `when_all` keeps when a cell reports.
use async_ery.Base.{ℕ, ◌≡◌, true, List, set, Bool-cases, inl, inr, leb, add_size}
use async_ery.Cell.Result.{Result, value, error}
use async_ery.Cell.WriteOnce.{write, write_error}
use async_ery.Cell.WriteOnce.Held.{Held, Calls, write-Held}
use async_ery.Scheduler.Context.{Context}
use async_ery.Cell.WhenAll.{WhenAllCell, on_result, on_value, on_error, commit_resolved_value}

module _ {ℓ} {C T Err : Type ℓ} (Q : Result (List T) Err → Type ℓ) (W : C → Type ℓ)
    (F : C → Result (List T) Err → Type ℓ)
    (meets : (callback : C) (r : Result (List T) Err) → W callback → Q r → F callback r) where
  pub on_value-Held :
      (k : WhenAllCell C T Err) (ctx : Context) (i : ℕ) (v : T)
      → Held Q W F meets k.underlying_cell
      → (leb k.execution_context.total_cells (add_size k.execution_context.num_resolved_cells 1)
            ≡ true
          → Q (value (set k.execution_context.resolved_values i v)))
      → let (k', calls) = on_result k ctx i (value v) in
        Held Q W F meets k'.underlying_cell × Calls Q W F meets calls
  unfolding on_result on_value commit_resolved_value write
  on_value-Held k ctx i v h q =
      let slots = set k.execution_context.resolved_values i v in
      elim (Bool-cases
        (leb k.execution_context.total_cells (add_size k.execution_context.num_resolved_cells 1))) [
          | inl last ↦
              let done = write-Held Q W F meets k.underlying_cell ctx (value slots) h (q last) in
              rw (last, on_value) (done.0, done.1)
          | inr more ↦ rw (more, on_value) (h, tt)
        ]

  pub on_error-Held :
      (k : WhenAllCell C T Err) (ctx : Context) (i : ℕ) (x : Err)
      → Held Q W F meets k.underlying_cell
      → Q (error x)
      → let (k', calls) = on_result k ctx i (error x) in
        Held Q W F meets k'.underlying_cell × Calls Q W F meets calls
  unfolding on_result on_error write_error
  on_error-Held k ctx i x h q =
      let done = write-Held Q W F meets k.underlying_cell ctx (error x) h q in (done.0, done.1)
