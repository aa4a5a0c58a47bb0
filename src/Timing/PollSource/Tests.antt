-- ===== src/Timing/PollSource/Tests.antt =====
-- A source with one timer of a second and one of a minute, polled after two seconds; a clock unit is
-- a millisecond.
use async_ery.Base.{ℕ, ◌+◌, ◌≡◌, List, [], ◌∷◌, pos, total}
use async_ery.Timing.Hierarchical.Conserve.{weight}
use async_ery.Timing.PollSource.{make}
use async_ery.Timing.PollSource.History.{Op, schedules, polls, run, timers_lem}

abbrev same : ℕ → ℕ
same x = x

abbrev calls : List (Op ℕ)
calls = schedules (pos 1000) 7 ∷ schedules (pos 60_000) 8 ∷ polls 2000 ∷ []

timers_lem_example :
    let (jobs, s) = run (make ℕ 1 0) calls in total same jobs + weight same s.wheel.wheels ≡ 15
timers_lem_example = timers_lem same 1 0 calls
