-- ===== src/Base/Rings.antt =====
-- Slots of a ring: indices modulo `c`, at most once round.
use Prim.Native.Nat.{ℕ, ◌+◌, ◌-◌, ◌%◌, ◌≤◌, ◌<◌}
use mathlib.Core.Path.{◌≡◌}
use mathlib.Core.Logic.{◌≢◌, ◌⊎◌, inl, inr}
use mathlib.Core.Path.{sym}
use native.Mathlib.Nat.{mod-add-mod}
use native.Mathlib.Decide.{dec_lt}
use native.Mathlib.Omega.{arith}
use async_ery.Base.Words.{mod_below, mod_above}

-- The distance from `h` up to `t` in a ring of `c` slots.
pub distance :
    (c h t : ℕ)
    → h < c
    → t < c
    → ((t < h) × ((t + c - h) % c ≡ t + c - h)) ⊎ ((h ≤ t) × ((t + c - h) % c ≡ t - h))
distance c h t hh ht = elim (dec_lt t h) [
  | yes lt ↦ inl (lt, mod_below (t + c - h) c (omega arith))
  | no ge ↦ inr (omega arith, omega (arith, mod_above (t + c - h) c (omega arith) (omega arith)))
]

-- One step past slot `i`.
pub next_slot :
    (c i : ℕ) → i < c → ((i + 1 < c) × ((i + 1) % c ≡ i + 1)) ⊎ ((i + 1 ≡ c) × ((i + 1) % c ≡ 0))
next_slot c i h = elim (dec_lt (i + 1) c) [
  | yes lt ↦ inl (lt, mod_below (i + 1) c lt)
  | no ge ↦ inr (omega arith, omega (arith, mod_above (i + 1) c (omega arith) (omega arith)))
]

-- Entry `e` of a run that starts at slot `h` and goes round at most once.
pub entry_slot :
    (c h i : ℕ)
    → h < c
    → i < c
    → ((h + i < c) × ((h + i) % c ≡ h + i)) ⊎ ((c ≤ h + i) × ((h + i) % c ≡ h + i - c))
entry_slot c h i hh hi = elim (dec_lt (h + i) c) [
  | yes lt ↦ inl (lt, mod_below (h + i) c lt)
  | no ge ↦ inr (omega arith, mod_above (h + i) c (omega arith) (omega arith))
]

-- The slot after the last job is `tail`.
pub end_slot : (c h t : ℕ) → h < c → t < c → (h + (t + c - h) % c) % c ≡ t
end_slot c h t hh ht = ground (arith, distance c h t hh ht, entry_slot c h ((t + c - h) % c) hh)

-- Fewer than `n` steps round a ring of `n` slots do not come back to the start.
pub step_ne : (n e j : ℕ) → 0 < j → j < n → e % n ≢ (e + j) % n
step_ne n e j pos lt = rw (← mod-add-mod e n j) (ground (arith, entry_slot n (e % n) j))

-- Different numbers of steps, fewer than `n`, lead to different slots.
pub slot_ne : (n e i j : ℕ) → i < n → j < n → i ≢ j → (e + i) % n ≢ (e + j) % n
slot_ne n e i j hi hj ne same = elim (dec_lt i j) [
  | yes lt ↦
      let k : e + j ≡ e + i + (j - i) = omega arith in
      step_ne n (e + i) (j - i) (omega arith) (omega arith) (rw k at same)
  | no ge ↦
      let k : e + i ≡ e + j + (i - j) = omega arith in
      step_ne n (e + j) (i - j) (omega arith) (omega arith) (rw k at (sym same))
]
