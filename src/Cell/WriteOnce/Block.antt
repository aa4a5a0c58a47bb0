-- ===== src/Cell/WriteOnce/Block.antt =====
-- `block`, which waits on a condition variable once. `wait` may also return with no notification.
use async_ery.Base.{◌≡◌, refl, sym, ◌∙◌, ap, Option, none, some, List}
use async_ery.Cell.Result.{Result}
use async_ery.Cell.WriteOnce.{WriteOnceCell, read}
use async_ery.Cell.WriteOnce.Laws.{Op, run, first_written, value-run, run-filled}

-- `bad_access`: `std::bad_optional_access`.
pub data Outcome {ℓ} (T Err : Type ℓ) : Type ℓ where
  returned : Result T Err → Outcome T Err
  bad_access : Outcome T Err

abbrev pub access {ℓ} : {T Err : Type ℓ} → Option (Result T Err) → Outcome T Err
access none = bad_access
access (some result) = returned result

module _ {ℓ} {C T Err : Type ℓ} where
  -- The value that is read, given the cell when the mutex was taken and the cell when `wait` came
  -- back.
  block_at : Option (Result T Err) → WriteOnceCell C T Err → Outcome T Err
  block_at (some result) woken = returned result
  block_at none woken = access woken.value

  pub block : WriteOnceCell C T Err → WriteOnceCell C T Err → Outcome T Err
  unfolding block_at
  block found woken = block_at found.value woken

  -- The result that a cell has, or the one that is written to it first.
  abbrev result_of : WriteOnceCell C T Err → List (Op C T Err) → Option (Result T Err)
  result_of c ops = elim c.value [ some result ↦ some result | none ↦ first_written ops ]

  -- A thread that blocks on any cell and is woken after the calls `ops` gets the result that the cell
  -- had when it blocked, or else the one that was written first, and fails if there is neither; and
  -- this is the result that `read` gives from then on.
  pub block_lem :
      (c : WriteOnceCell C T Err) (ops : List (Op C T Err))
      → (block c (run c ops).1 ≡ access (result_of c ops))
        × (block c (run c ops).1 ≡ access (read (run c ops).1))
  unfolding block read
  block_lem c ops = at c.value refl
    where
      at :
          (o : Option (Result T Err))
          → c.value ≡ o
          → (block_at o (run c ops).1
              ≡ access (elim o [ some result ↦ some result | none ↦ first_written ops ]))
            × (block_at o (run c ops).1 ≡ access (run c ops).1.value)
      at (some result) e = (refl, ap access (sym (run-filled result ops c e)))
      at none e = (
        ap (λ v. access (run (record { value = v; callbacks = c.callbacks }) ops).1.value) e
            ∙ ap access (value-run c.callbacks ops),
        refl,
      )
