-- ===== src/Timing/Wheel/Tests.antt =====
-- The wheel at concrete inputs: three buckets, of ten units each, and an index past the first turn.
use async_ery.Base.{ℕ, ◌+◌, ◌≡◌, refl, [], ◌∷◌, total, pos, arith}
use async_ery.Timing.Wheel.{TimingWheel, schedule, advance, collect, non_wrapped_wheel_index}
use async_ery.Timing.Wheel.Agenda.{add}
use async_ery.Timing.Wheel.Refine.{IsValid, due, due-schedule, Advanced, advance_lem}
use async_ery.Timing.Wheel.Firing.{fires_lem}
use async_ery.Timing.Wheel.Conserve.{weight, advance-weight}

abbrev wheel : TimingWheel ℕ
wheel = record {
  wheel = (3 ∷ []) ∷ (1 ∷ 2 ∷ []) ∷ [] ∷ [];
  wheel_tick_size = 10;
  last_advancement_time = 100;
  num_ticks = 3;
  current_wheel_index = 4;
}

abbrev wheel-IsValid : IsValid wheel
wheel-IsValid = omega arith

abbrev same : ℕ → ℕ
same x = x

-- Timer 9 stands in the bucket before the index, two ticks ahead.
schedule-run : (schedule wheel (pos 25) 9).wheel ≡ (3 ∷ 9 ∷ []) ∷ (1 ∷ 2 ∷ []) ∷ [] ∷ []
unfolding schedule non_wrapped_wheel_index
schedule-run = refl

advance-run : (advance wheel 115).0 ≡ 1 ∷ 2 ∷ []
unfolding advance collect non_wrapped_wheel_index
advance-run = refl

advance_lem_example : Advanced wheel-IsValid 125 (advance wheel 125)
advance_lem_example = advance_lem wheel-IsValid 125 (omega arith) (omega arith)

due-schedule_example : due (schedule wheel (pos 25) 9) ≡ add (due wheel) 2 9
due-schedule_example = due-schedule wheel-IsValid 25 9 (omega arith) (omega arith)

advance-weight_example :
    IsValid (advance wheel 125).1
    × (total same (advance wheel 125).0 + weight same (advance wheel 125).1 ≡ 6)
advance-weight_example = advance-weight same wheel 125 wheel-IsValid

-- 25 units are two ticks, and three have passed.
fires_lem_example :
    total same (advance (schedule wheel (pos 25) 9) 130).0 ≡ total same (advance wheel 130).0 + 9
fires_lem_example =
    fires_lem same wheel-IsValid 25 9 130 (omega arith) (omega arith) (omega arith) (omega arith)
