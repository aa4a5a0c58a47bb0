-- ===== src/Timing/Hierarchical/Tests.antt =====
-- The wheels at concrete inputs: two wheels of four and three buckets, and the wheels of the poll
-- source.
use async_ery.Base.{ℕ, ◌+◌, ◌-◌, ◌^◌, ◌≡◌, refl, [], ◌∷◌, length, total, replicate, pos, arith}
use async_ery.Timing.Hierarchical.{
  HierarchicalTimingWheel, Wheel, schedule, advance, find_wheel, load_timers_from_wheel, expire,
  expire_all, clear_lowest, load_once, load_entries, load_entry, turn, insert,
  determine_timer_wheel, determine_new_bottom_wheel_index,
}
use async_ery.Timing.Hierarchical.Bounds.{IsValid}
use async_ery.Timing.Hierarchical.Conserve.{weight}
use async_ery.Timing.Hierarchical.Laws.{schedule_wheels_lem, advance_wheels_lem}
use async_ery.Timing.Hierarchical.Underflow.{IsClock, find_wheel-underflow}

abbrev same : ℕ → ℕ
same x = x

-- Timer 5 stands one tick ahead, timer 6 in the second bucket of the upper wheel.
abbrev lower : Wheel ℕ
lower = record {
  num_buckets = 4;
  ticks_per_bucket = 1;
  curr_bucket_index = 3;
  buckets = [] ∷ [] ∷ [] ∷ (record { tick_offset_into_bucket = 0; timer = 5 } ∷ []) ∷ [];
}

abbrev upper : Wheel ℕ
upper = record {
  num_buckets = 3;
  ticks_per_bucket = 4;
  curr_bucket_index = 1;
  buckets = [] ∷ (record { tick_offset_into_bucket = 2; timer = 6 } ∷ []) ∷ [] ∷ [];
}

abbrev wheels : HierarchicalTimingWheel ℕ
wheels = record { tick_size = 10; last_advancement_time = 0; wheels = lower ∷ upper ∷ [] }

wheels-IsValid : IsValid wheels.wheels
wheels-IsValid = record { some_wheel = omega arith; each = (omega arith, (omega arith, tt)) }

schedule_wheels_lem_example :
    IsValid (schedule wheels (pos 60) 8).wheels
    × (length (schedule wheels (pos 60) 8).wheels ≡ 2)
    × (weight same (schedule wheels (pos 60) 8).wheels ≡ 19)
schedule_wheels_lem_example =
    schedule_wheels_lem same wheels wheels-IsValid (omega arith) (pos 60) 8

advance_wheels_lem_example :
    IsValid (advance wheels 45).1.wheels
    × (length (advance wheels 45).1.wheels ≡ 2)
    × (total same (advance wheels 45).0 + weight same (advance wheels 45).1.wheels ≡ 11)
advance_wheels_lem_example = advance_wheels_lem same wheels wheels-IsValid (omega arith) 45

-- A wheel of the poll source with no timer.
abbrev clock_wheel : ℕ → ℕ → ℕ → Wheel ℕ
clock_wheel n per_bucket index = record {
  num_buckets = n;
  ticks_per_bucket = per_bucket;
  curr_bucket_index = index;
  buckets = replicate n [];
}

-- Thirty seconds past a full minute.
clock :
    IsClock
      (clock_wheel 1200 1 600)
      (clock_wheel 60 1200 0)
      (clock_wheel 24 72_000 0)
      (clock_wheel 10 1_728_000 0)
clock = record {
  minute_shape = (refl, refl);
  hour_shape = (refl, refl);
  day_shape = (refl, refl);
  ten_days_shape = (refl, refl);
  indices = (omega arith, omega arith, omega arith);
}

-- 45 seconds ahead.
find_wheel-underflow_example :
    find_wheel
      (clock_wheel 1200 1 600
        ∷ clock_wheel 60 1200 0
        ∷ clock_wheel 24 72_000 0
        ∷ clock_wheel 10 1_728_000 0
        ∷ [])
      0
      900
    ≡ (3, 2 ^ 64 - 1_800_300)
find_wheel-underflow_example = find_wheel-underflow clock 900 (omega arith) (omega arith)

-- Half a turn of the lower wheel has passed.
abbrev half : HierarchicalTimingWheel ℕ
half = record {
  tick_size = 10;
  last_advancement_time = 0;
  wheels =
      record {
        num_buckets = 4;
        ticks_per_bucket = 1;
        curr_bucket_index = 2;
        buckets = replicate 4 [];
      }
      ∷ record {
        num_buckets = 3;
        ticks_per_bucket = 4;
        curr_bucket_index = 0;
        buckets = replicate 3 [];
      }
      ∷ [];
}

-- A timer of 60 units is back after 50, since the part of the turn that has passed is not counted.
early-run : (advance (schedule half (pos 60) 8) 50).0 ≡ 8 ∷ []
unfolding advance determine_new_bottom_wheel_index expire_all expire clear_lowest
    load_timers_from_wheel load_once load_entries load_entry turn schedule insert
    determine_timer_wheel find_wheel
early-run = refl
