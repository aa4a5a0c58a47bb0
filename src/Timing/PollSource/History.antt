-- ===== src/Timing/PollSource/History.antt =====
-- Histories of calls on the poll source of the timers.
use async_ery.Base.{
  ℕ, ◌+◌, ◌*◌, ◌^◌, ◌<◌, ◌≡◌, List, [], ◌∷◌, ◌++◌, length, total, total-append, ℤ, arith,
}
use async_ery.Timing.Hierarchical.Bounds.{IsValid}
use async_ery.Timing.Hierarchical.Conserve.{weight}
use async_ery.Timing.Hierarchical.Laws.{make_wheels_lem, schedule_wheels_lem, advance_wheels_lem}
use async_ery.Timing.PollSource.{PollSource, wheel_sizes, make, schedule, poll}

-- The calls, in the order in which they get the lock; a poll has the time that it reads.
pub data Op {ℓ} (A : Type ℓ) : Type ℓ where
  schedules : ℤ → A → Op A
  polls : ℕ → Op A

module _ {ℓ} {A : Type ℓ} where
  -- The jobs that the polls return, and the source at the end.
  pub run : PollSource A → List (Op A) → List A × PollSource A
  run s [] = ([], s)
  run s (schedules expiry task ∷ ops) = run (schedule s expiry task) ops
  run s (polls now ∷ ops) =
      let (jobs, s') = poll s now in let (later, s'') = run s' ops in (jobs ++ later, s'')

  abbrev pub given : List (Op A) → List A
  given [] = []
  given (schedules expiry task ∷ ops) = task ∷ given ops
  given (polls now ∷ ops) = given ops

  run-weight :
      (p : A → ℕ) (ops : List (Op A)) (s : PollSource A)
      → IsValid s.wheel.wheels
      → length s.wheel.wheels < 2 ^ 64
      → total p (run s ops).0 + weight p (run s ops).1.wheel.wheels
        ≡ weight p s.wheel.wheels + total p (given ops)
  unfolding run schedule poll
  run-weight p [] s v small = omega arith
  run-weight p (schedules expiry task ∷ ops) s v small =
      let one = schedule_wheels_lem p s.wheel v small expiry task in
      let rest = run-weight p ops (schedule s expiry task) one.0 (omega (arith, one.1)) in
      omega (arith, one.2, rest)
  run-weight p (polls now ∷ ops) s v small =
      let one = advance_wheels_lem p s.wheel v small now in
      let s' = (poll s now).1 in
      let rest = run-weight p ops s' one.0 (omega (arith, one.1)) in
      omega (arith, one.2, rest, total-append p (poll s now).0 (run s' ops).0)

-- Whatever calls a new source gets, at whatever times, the jobs that its polls have returned and
-- those that it still holds are together the jobs that were scheduled, each once.
pub timers_lem {ℓ} :
    {A : Type ℓ} (p : A → ℕ) (per_ms now : ℕ) (ops : List (Op A))
    → let (jobs, s) = run (make A per_ms now) ops in
      total p jobs + weight p s.wheel.wheels ≡ total p (given ops)
unfolding make
timers_lem {A = A} p per_ms now ops =
    let new =
      make_wheels_lem p now (50 * per_ms) wheel_sizes (omega arith)
        (omega arith, (omega arith, (omega arith, (omega arith, tt)))) in
    let all = run-weight p ops (make A per_ms now) new.0 (omega (arith, new.1)) in
    omega (arith, all, new.2)
