-- ===== src/Timing/Wheel/Firing.antt =====
-- When a timer that was scheduled comes back from `advance`.
use mathlib.Core.Path.{fun_ext}
use async_ery.Base.{
  ℕ, zero, suc, ◌+◌, ◌/◌, ◌^◌, ◌≤◌, ◌<◌, ◌≡◌, refl, sym, ap, ◌∙◌, [], ◌++◌, ◌∷◌, total,
  total-append, ltb, ◌==◌, if◌then◌else◌, differ, true, false, pos, arith,
}
use async_ery.Timing.Wheel.{TimingWheel, schedule, advance}
use async_ery.Timing.Wheel.Agenda.{Agenda, add, upto}
use async_ery.Timing.Wheel.Conserve.{schedule-weight}
use async_ery.Timing.Wheel.Refine.{IsValid, due, due-schedule, ticks_until, advance_lem}

-- One tick later.
abbrev next {ℓ} : {A : Type ℓ} → Agenda A → Agenda A
next agenda i = agenda (i + 1)

module _ {ℓ} {A : Type ℓ} (x : A) where
  add-next : (agenda : Agenda A) (t : ℕ) → next (add agenda (suc t) x) ≡ add (next agenda) t x
  unfolding add
  add-next agenda t =
      fun_ext (λ i. let same : (i + 1 == suc t) ≡ (i == t) = ground arith in rw same refl)

  add-past : (agenda : Agenda A) → next (add agenda zero x) ≡ next agenda
  unfolding add
  add-past agenda =
      fun_ext (λ i. let other : (i + 1 == zero) ≡ false = differ (omega arith) in rw other refl)

  upto-add :
      (p : A → ℕ) (k t : ℕ) (agenda : Agenda A)
      → total p (upto k (add agenda t x)) ≡ total p (upto k agenda) + (if ltb t k then p x else 0)
  unfolding upto add
  upto-add p zero t agenda = let never : ltb t zero ≡ false = ground arith in rw never refl
  upto-add p (suc k) zero agenda =
      let now : ltb zero (suc k) ≡ true = ground arith in
      let rest = ap (λ a. total p (upto k a)) (add-past agenda) in
      rw now (
        omega (
          arith,
          rest,
          total-append p (agenda 0 ++ x ∷ []) (upto k (λ i. add agenda zero x (i + 1))),
          total-append p (agenda 0) (x ∷ []),
          total-append p (agenda 0) (upto k (λ i. agenda (i + 1))),
        ))
  upto-add p (suc k) (suc t) agenda =
      let same : ltb (suc t) (suc k) ≡ ltb t k = ground arith in
      let first : add agenda (suc t) x 0 ≡ agenda 0 =
        let other : (zero == suc t) ≡ false = differ (omega arith) in rw other refl in
      let rest = ap (λ a. total p (upto k a)) (add-next agenda t) in
      rw same (
        omega (
          arith,
          rest,
          ap (total p) first,
          upto-add p k t (next agenda),
          total-append p (add agenda (suc t) x 0) (upto k (λ i. add agenda (suc t) x (i + 1))),
          total-append p (agenda 0) (upto k (λ i. agenda (i + 1))),
        ))

-- In a well-formed wheel whose index stays below `2 ^ 64`, schedule a timer for less than a turn, and
-- let at least one tick pass. By every weight `p`, `advance` then returns what it returns without the
-- timer, and the timer as well exactly if more ticks have passed since the last advancement than its
-- duration has whole ticks.
pub fires_lem {ℓ} :
    {A : Type ℓ} (p : A → ℕ) {w : TimingWheel A} (v : IsValid w) (duration : ℕ) (timer : A)
    (now : ℕ)
    → duration / w.wheel_tick_size < w.num_ticks
    → w.last_advancement_time + w.wheel_tick_size ≤ now
    → w.current_wheel_index + w.num_ticks < 2 ^ 64
    → w.current_wheel_index + ticks_until v now < 2 ^ 64
    → total p (advance (schedule w (pos duration) timer) now).0
      ≡ total p (advance w now).0
        + (if ltb (duration / w.wheel_tick_size) (ticks_until v now) then p timer else 0)
unfolding schedule
fires_lem p {w} v duration timer now short past small small' =
    let t = duration / w.wheel_tick_size in
    let k = ticks_until v now in
    let v' = (schedule-weight p w (pos duration) timer v).0 in
    let with = ap (total p) (advance_lem v' now past small').fired in
    let without = ap (total p) (advance_lem v now past small').fired in
    let agenda = ap (λ a. total p (upto k a)) (due-schedule v duration timer short small) in
    with
    ∙ agenda
    ∙ upto-add timer p k t (due w)
    ∙ ap (λ n. n + (if ltb t k then p timer else 0)) (sym without)
