-- ===== src/Concurrency/SpinLock/Tests.antt =====
-- The lock at concrete states: two threads that have both seen a free lock.
use async_ery.Base.{ℕ, ◌≡◌, refl, true, ℕ_discrete, arith}
use async_ery.Concurrency.SpinLock.{
  System, move, step, Reach, start, later, init, idle, attempt, back_off, holding,
}
use async_ery.Concurrency.SpinLock.Exclusion.{mutual_exclusion}
use async_ery.Concurrency.SpinLock.Progress.{moves, free_taken, gives_up}

-- Threads 0 and 1 take turns until both have stored.
abbrev raced : System
raced = move 1 (move 0 (move 1 (move 0 (move 1 (move 0 init)))))

raced-Reach : Reach raced
raced-Reach = later 1 (later 0 (later 1 (later 0 (later 1 (later 0 start)))))

raced-run : (raced.pc 0 ≡ holding) × (raced.pc 1 ≡ back_off)
unfolding move step ℕ_discrete
raced-run = (refl, refl)

mutual_exclusion_example :
    ((i j : ℕ) → raced.pc i ≡ holding → raced.pc j ≡ holding → i ≡ j)
    × ((i : ℕ) → raced.pc i ≡ holding → raced.is_acquired ≡ true)
    × (raced.is_acquired ≡ true → (i : ℕ) × (raced.pc i ≡ holding))
mutual_exclusion_example = mutual_exclusion raced-Reach

free_taken_example : (moves 2 3 init).pc 2 ≡ holding
free_taken_example = free_taken 2 init idle refl refl

-- Another thread holds the lock.
abbrev taken : System
taken = record { is_acquired = true; pc = λ _. attempt 4 }

gives_up_example : ((moves 1 11 taken).pc 1 ≡ back_off) × ((moves 1 11 taken).is_acquired ≡ true)
gives_up_example = gives_up 10 1 4 taken refl refl (omega arith)
