-- ===== src/Base/Words.antt =====
-- size_t: 64-bit words with wrap-around, and remainders below twice the modulus.
use Prim.Native.Nat.{ℕ, ◌+◌, ◌-◌, ◌*◌, ◌%◌, ◌^◌, ◌≤◌, ◌<◌}
use mathlib.Core.Path.{◌≡◌}
use native.Mathlib.Nat.{mod-eq_of_lt, mod-eq-sub-mod}
use native.Mathlib.Omega.{arith}

abbrev pub add_size : ℕ → ℕ → ℕ
add_size a b = (a + b) % 2 ^ 64

-- For operands below 2 ^ 64; `-` on ℕ stops at 0, so the modulus is added first.
abbrev pub sub_size : ℕ → ℕ → ℕ
sub_size a b = (a + 2 ^ 64 - b) % 2 ^ 64

abbrev pub mul_size : ℕ → ℕ → ℕ
mul_size a b = a * b % 2 ^ 64

pub mod_below : (e c : ℕ) → e < c → e % c ≡ e
mod_below e c h = mod-eq_of_lt h

pub mod_above : (e c : ℕ) → c ≤ e → e < c + c → e % c ≡ e - c
mod_above e c h k =
    omega (arith, mod-eq-sub-mod {n = e} {m = c} h, mod-eq_of_lt {n = e - c} {m = c} (omega arith))
