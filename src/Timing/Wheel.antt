-- ===== src/Timing/Wheel.antt =====
-- src/timing/include/timing/structures/timing_wheel.h. Time points are counts of the clock's unit
-- since its epoch; reading the clock is an argument of each call that does it.
pub mod Agenda
mod Loop
pub mod Refine
pub mod Firing
pub mod Conserve
mod Tests
use async_ery.Base.{
  ℕ, zero, suc, ◌-◌, ◌%◌, List, [], ◌∷◌, ◌++◌, get_or, set, replicate, if◌then◌else◌, add_size, ℤ,
  elapsed, is_shorter, quotient, size_cast,
}

pub record TimingWheel {ℓ} (A : Type ℓ) : Type ℓ where
  pub wheel : List (List A)
  pub wheel_tick_size : ℕ
  pub last_advancement_time : ℕ
  pub num_ticks : ℕ
  pub current_wheel_index : ℕ

-- `buckets[i].push_back(timer)`
abbrev pub push_back {ℓ} : {A : Type ℓ} → List (List A) → ℕ → A → List (List A)
push_back buckets i timer = set buckets i (get_or buckets i [] ++ timer ∷ [])

-- The constructor, at the time `now`.
unfoldable pub make {ℓ} : (A : Type ℓ) → ℕ → ℕ → ℕ → TimingWheel A
make A now wheel_tick_size num_ticks = record {
  wheel = replicate num_ticks [];
  wheel_tick_size = wheel_tick_size;
  last_advancement_time = now;
  num_ticks = num_ticks;
  current_wheel_index = 0;
}

module _ {ℓ} {A : Type ℓ} where
  -- `since_last` is the argument `time` less `last_advancement_time`.
  unfoldable pub non_wrapped_wheel_index : TimingWheel A → ℤ → ℕ
  non_wrapped_wheel_index w since_last =
      add_size w.current_wheel_index (size_cast (quotient since_last w.wheel_tick_size))

  unfoldable pub schedule : TimingWheel A → ℤ → A → TimingWheel A
  unfolding non_wrapped_wheel_index
  schedule w duration_from_last_advancement timer =
      let index = non_wrapped_wheel_index w duration_from_last_advancement in
      record w { wheel = push_back w.wheel (index % w.num_ticks) timer }

  -- The loop of `advance` over `n` indices from `idx` on.
  unfoldable pub collect : ℕ → ℕ → ℕ → List (List A) → List A → List A × List (List A)
  collect num_ticks zero idx wheel resolved_timers = (resolved_timers, wheel)
  collect num_ticks (suc n) idx wheel resolved_timers =
      let bucket = idx % num_ticks in
      collect num_ticks n (add_size idx 1) (set wheel bucket [])
        (resolved_timers ++ get_or wheel bucket [])

  unfoldable pub advance : TimingWheel A → ℕ → List A × TimingWheel A
  unfolding non_wrapped_wheel_index
  advance w now =
      let since_last = elapsed now w.last_advancement_time in
      let upto = non_wrapped_wheel_index w since_last in
      let (resolved_timers, wheel') =
        collect w.num_ticks (upto - w.current_wheel_index) w.current_wheel_index w.wheel [] in
      if is_shorter since_last w.wheel_tick_size then ([], w) else (
        resolved_timers,
        record w { wheel = wheel'; current_wheel_index = upto; last_advancement_time = now },
      )
