-- ===== src/Cell/Tests.antt =====
-- The cells at concrete inputs; a callback is a number, a value is a number, and so is an error.
use async_ery.Base.{ℕ, zero, suc, ◌+◌, ◌<◌, ◌≡◌, refl, none, some, List, [], ◌∷◌, map, arith}
use mathlib.Core.List.{Memᴰ}
use async_ery.Scheduler.Context.{Context, empty, of_worker}
use async_ery.Cell.Result.{Result, value, error}
use async_ery.Cell.WriteOnce.{Delivery, WriteOnceCell, read}
use async_ery.Cell.WriteOnce.Laws.{Op, writes, awaits, write_once_refines}
use async_ery.Cell.WriteOnce.Laws
use async_ery.Cell.WriteOnce.Block.{returned, access, block, block_lem}
use async_ery.Cell.WhenAny.Laws.{when_any_lem}
use async_ery.Cell.WhenAny
use async_ery.Cell.WhenAll.Laws.{when_all-values, when_all-error, success}
use async_ery.Cell.WhenAll

abbrev history : List (Op ℕ ℕ ℕ)
history = awaits 2 ∷ writes (of_worker 3) (value 50) ∷ awaits 4 ∷ writes empty (error 60) ∷ []

abbrev call : Context → ℕ → Delivery ℕ ℕ ℕ
call ctx callback = record { ctx = ctx; callback = callback; result = value 50 }

abbrev fresh : WriteOnceCell ℕ ℕ ℕ
fresh = record { value = none; callbacks = 1 ∷ [] }

abbrev filled : WriteOnceCell ℕ ℕ ℕ
filled = record { value = some (value 50); callbacks = [] }

write_once_refines_example :
    Laws.run fresh history
    ≡ (1, filled, call (of_worker 3) 1 ∷ call (of_worker 3) 2 ∷ call empty 4 ∷ [])
unfolding Laws.promised
write_once_refines_example = write_once_refines (1 ∷ []) history

block_lem_example :
    (block fresh (Laws.run fresh history).1 ≡ returned (value 50))
    × (block fresh (Laws.run fresh history).1 ≡ access (read (Laws.run fresh history).1))
unfolding Laws.first_written
block_lem_example = block_lem fresh history

block-filled : block filled (Laws.run filled (writes empty (error 7) ∷ [])).1 ≡ returned (value 50)
block-filled = (block_lem filled (writes empty (error 7) ∷ [])).0

abbrev events : List (Context × Result ℕ ℕ)
events = (empty, error 60) ∷ (of_worker 1, value 50) ∷ (empty, value 51) ∷ []

when_any_lem_example :
    (WhenAny.Laws.run (WhenAny.make {C = ℕ} 3) events).underlying_cell.value ≡ some (value 50)
unfolding WhenAny.Laws.promised
when_any_lem_example = when_any_lem ℕ 3 events (omega arith) (omega arith)

every : (i : ℕ) → i < 3 → Memᴰ i (2 ∷ 0 ∷ 1 ∷ [])
every zero lt = Memᴰ.tail (Memᴰ.head refl)
every (suc zero) lt = Memᴰ.tail (Memᴰ.tail (Memᴰ.head refl))
every (suc (suc zero)) lt = Memᴰ.head refl
every (suc (suc (suc i))) lt = absurd (omega arith)

-- The cells report in the order 2, 0, 1.
when_all-values_example :
    (WhenAll.Laws.run
      (WhenAll.make {C = ℕ} 0 3)
      (map (success ℕ of_worker (λ i. i + 7)) (2 ∷ 0 ∷ 1 ∷ []))).underlying_cell.value
    ≡ some (value (7 ∷ 8 ∷ 9 ∷ []))
when_all-values_example =
    when_all-values ℕ ℕ 0 3 of_worker (λ i. i + 7) (2 ∷ 0 ∷ 1 ∷ []) (omega arith) (omega arith) refl
      every

abbrev reports : List (Context × ℕ × Result ℕ ℕ)
reports = (empty, 1, value 50) ∷ (empty, 0, error 60) ∷ (empty, 2, error 61) ∷ []

when_all-error_example :
    (WhenAll.Laws.run (WhenAll.make {C = ℕ} 0 3) reports).underlying_cell.value ≡ some (error 60)
when_all-error_example = when_all-error ℕ 0 3 reports 60 (omega arith) (omega arith) refl
