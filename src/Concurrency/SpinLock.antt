-- ===== src/Concurrency/SpinLock.antt =====
-- src/concurrency/include/concurrency/spinlock.h and src/concurrency/src/spinlock.cpp. A step is one
-- atomic access of one thread; accesses are sequentially consistent.
mod Exclusion
mod Progress
mod Tests
use Prim.Native.Nat.{ℕ, suc, ◌+◌}
use async_ery.Base.{Bool, true, false, ◌==◌, if◌then◌else◌, ℕ_discrete}
use mathlib.Core.Logic.{ite}

abbrev pub num_attempts : ℕ
num_attempts = 15

-- Where a thread stands.
pub data Pc : Type 0 where
  idle : Pc  -- outside `lock` and `unlock`, without the lock
  attempt : (i : ℕ) → Pc  -- the inner loop, before the load of round `i`
  exchange : Pc  -- the load has seen a free lock
  back_off : Pc  -- the sleep
  holding : Pc  -- `lock` has returned

-- The next step of a thread that finds `is_acquired`: where it goes, and what it stores. A thread
-- that is idle calls `lock`, and one that holds the lock calls `unlock`.
pub step : Pc → Bool → Pc × Bool
step idle is_acquired = (attempt 0, is_acquired)
step (attempt i) is_acquired = (
  if is_acquired then (if i + 1 == num_attempts then back_off else attempt (i + 1)) else exchange,
  is_acquired,
)
step exchange is_acquired = (if is_acquired then back_off else holding, true)
step back_off is_acquired = (attempt 0, is_acquired)
step holding is_acquired = (idle, false)

pub record System : Type 0 where
  pub is_acquired : Bool
  pub pc : ℕ → Pc

abbrev pub init : System
init = record { is_acquired = false; pc = λ _. idle }

abbrev update : (ℕ → Pc) → ℕ → Pc → ℕ → Pc
update f i p j = ite (ℕ_discrete i j) p (f j)

-- Thread `i` makes its next step.
pub move : ℕ → System → System
unfolding step
move i s =
    let (p, b) = step (s.pc i) s.is_acquired in record { is_acquired = b; pc = update s.pc i p }

-- Any number of threads, in any order.
pub data Reach : System → Type 0 where
  start : Reach init
  later : {s : System} (i : ℕ) → Reach s → Reach (move i s)
