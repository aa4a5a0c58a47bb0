-- ===== src/Cell/WhenAny/Held.antt =====
-- What the cell of `when_any` keeps when a cell reports.
use async_ery.Base.{◌≡◌, true, Bool-cases, inl, inr, leb, add_size}
use async_ery.Cell.Result.{Result, value, error}
use async_ery.Cell.WriteOnce.{write, write_error}
use async_ery.Cell.WriteOnce.Held.{Held, Calls, write-Held}
use async_ery.Scheduler.Context.{Context}
use async_ery.Cell.WhenAny.{WhenAnyCell, on_result, on_value, on_error, log_error}

module _ {ℓ} {C T Err : Type ℓ} (Q : Result T Err → Type ℓ) (W : C → Type ℓ)
    (F : C → Result T Err → Type ℓ)
    (meets : (callback : C) (r : Result T Err) → W callback → Q r → F callback r) where
  pub on_value-Held :
      (k : WhenAnyCell C T Err) (ctx : Context) (v : T)
      → Held Q W F meets k.underlying_cell
      → Q (value v)
      → Held Q W F meets (on_result k ctx (value v)).0.underlying_cell
        × Calls Q W F meets (on_result k ctx (value v)).1
  unfolding on_result on_value write
  on_value-Held k ctx v h q = write-Held Q W F meets k.underlying_cell ctx (value v) h q

  pub on_error-Held :
      (k : WhenAnyCell C T Err) (ctx : Context) (x : Err)
      → Held Q W F meets k.underlying_cell
      → (leb k.exe_ctx.total_cells (add_size k.exe_ctx.num_erroneous_cells 1) ≡ true → Q (error x))
      → Held Q W F meets (on_result k ctx (error x)).0.underlying_cell
        × Calls Q W F meets (on_result k ctx (error x)).1
  unfolding on_result on_error log_error write_error
  on_error-Held k ctx x h q =
      elim (Bool-cases (leb k.exe_ctx.total_cells (add_size k.exe_ctx.num_erroneous_cells 1))) [
        | inl last ↦
            rw (last, on_error) (write-Held Q W F meets k.underlying_cell ctx (error x) h (q last))
        | inr more ↦ rw (more, on_error) (h, tt)
      ]
