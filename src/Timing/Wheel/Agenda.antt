-- ===== src/Timing/Wheel/Agenda.antt =====
-- The specification of a timing wheel: each timer stands under the number of ticks until it is due.
use async_ery.Base.{ℕ, zero, suc, ◌+◌, List, [], ◌∷◌, ◌++◌, ◌==◌, if◌then◌else◌}

abbrev pub Agenda {ℓ} : Type ℓ → Type ℓ
Agenda A = ℕ → List A

module _ {ℓ} {A : Type ℓ} where
  unfoldable pub add : Agenda A → ℕ → A → Agenda A
  add due ticks timer i = if i == ticks then due i ++ timer ∷ [] else due i

  -- The timers due within `n` ticks, in the order in which they come due.
  unfoldable pub upto : ℕ → Agenda A → List A
  upto zero due = []
  upto (suc n) due = due 0 ++ upto n (λ i. due (i + 1))

  unfoldable pub later : ℕ → Agenda A → Agenda A
  later n due i = due (i + n)
