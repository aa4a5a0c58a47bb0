-- ===== src/Concurrency/SpinLock/Progress.antt =====
-- The loops of `lock` in a thread that runs alone.
use async_ery.Base.{ℕ, zero, suc, ◌+◌, ◌≡◌, refl, ◌∙◌, Bool, true, false, arith, ℕ_discrete}
use mathlib.Core.Logic.{if_pos}
use async_ery.Concurrency.SpinLock.{
  Pc, idle, attempt, exchange, back_off, holding, step, System, move, num_attempts,
}

-- Thread `i` makes its next `n` steps.
pub moves : ℕ → ℕ → System → System
unfolding move
moves i zero s = s
moves i (suc n) s = moves i n (move i s)

-- The steps to the lock, if it is free.
abbrev steps_left : Pc → ℕ
steps_left idle = 3
steps_left (attempt n) = 2
steps_left exchange = 1
steps_left back_off = 3
steps_left holding = 0

-- What a step does to the thread that makes it.
own_step :
    (i : ℕ) (s : System) {p : Pc} {b : Bool}
    → s.pc i ≡ p
    → s.is_acquired ≡ b
    → ((move i s).pc i ≡ (step p b).0) × ((move i s).is_acquired ≡ (step p b).1)
unfolding move
own_step i s e h = (if_pos (ℕ_discrete i i) refl _ _ ∙ rw (e, h), rw (e, h))

from_exchange :
    (i : ℕ) (s : System) → s.pc i ≡ exchange → s.is_acquired ≡ false → (moves i 1 s).pc i ≡ holding
unfolding moves step
from_exchange i s e h = (own_step i s e h).0

from_attempt :
    (i n : ℕ) (s : System)
    → s.pc i ≡ attempt n
    → s.is_acquired ≡ false
    → (moves i 2 s).pc i ≡ holding
unfolding moves step
from_attempt i n s e h = let one = own_step i s e h in from_exchange i (move i s) one.0 one.1

-- A thread that runs while the lock is free, and no other does, has the lock after three steps at
-- most, wherever it stands.
pub free_taken :
    (i : ℕ) (s : System) (p : Pc)
    → s.pc i ≡ p
    → s.is_acquired ≡ false
    → (moves i (steps_left p) s).pc i ≡ holding
unfolding moves step
free_taken i s idle e h = let one = own_step i s e h in from_attempt i 0 (move i s) one.0 one.1
free_taken i s (attempt n) e h = from_attempt i n s e h
free_taken i s exchange e h = from_exchange i s e h
free_taken i s back_off e h = let one = own_step i s e h in from_attempt i 0 (move i s) one.0 one.1
free_taken i s holding e h = e

-- A thread in the inner loop that runs while the lock is taken, and no other does, ends in the sleep
-- after the attempts that are left, and leaves the lock taken.
pub gives_up :
    (k i n : ℕ) (s : System)
    → s.pc i ≡ attempt n
    → s.is_acquired ≡ true
    → n + suc k ≡ num_attempts
    → ((moves i (suc k) s).pc i ≡ back_off) × ((moves i (suc k) s).is_acquired ≡ true)
unfolding moves
gives_up zero i n s e h c = ground arith
gives_up (suc k) i n s e h c =
    gives_up k i (n + 1) (move i s) (ground arith) (ground arith) (omega arith)
