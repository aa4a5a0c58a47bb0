-- ===== src/Base/Durations.antt =====
-- std::chrono durations: signed counts of one unit (the clock's), and their use as tick counts.
use Prim.Native.Nat.{ℕ, zero, suc, ◌+◌, ◌-◌, ◌/◌, ◌%◌, ◌^◌, ◌≤◌}
use mathlib.Core.Path.{◌≡◌}
use mathlib.Core.Bool.{Bool, true, false}
use native.Mathlib.Omega.{arith}
use async_ery.Base.Tests.{ltb, leb, if◌then◌else◌}

-- `negsuc n` is -(n + 1).
pub data ℤ : Type 0 where
  pos : ℕ → ℤ
  negsuc : ℕ → ℤ

-- -n
abbrev neg : ℕ → ℤ
neg zero = pos 0
neg (suc n) = negsuc n

-- `now - last` of two time points; the system clock may have been set back in between.
abbrev pub elapsed : ℕ → ℕ → ℤ
elapsed now last = if leb last now then pos (now - last) else negsuc (last - now - 1)

-- `d < tick` for a tick size, which is not negative.
abbrev pub is_shorter : ℤ → ℕ → Bool
is_shorter (pos n) tick = ltb n tick
is_shorter (negsuc n) tick = true

-- `d / tick`, rounded towards zero.
abbrev pub quotient : ℤ → ℕ → ℤ
quotient (pos n) tick = pos (n / tick)
quotient (negsuc n) tick = neg (suc n / tick)

-- `static_cast<size_t>`
abbrev pub size_cast : ℤ → ℕ
size_cast (pos n) = n % 2 ^ 64
size_cast (negsuc n) = (2 ^ 64 - suc n % 2 ^ 64) % 2 ^ 64

-- Past the guard of an advance the clock has moved on by at least one tick.
pub guard_passed :
    (now last tick : ℕ)
    → is_shorter (elapsed now last) tick ≡ false
    → (last + tick ≤ now) × (elapsed now last ≡ pos (now - last))
guard_passed now last tick h = ground arith
