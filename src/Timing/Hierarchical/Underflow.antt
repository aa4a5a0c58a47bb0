-- ===== src/Timing/Hierarchical/Underflow.antt =====
-- What `determine_timer_wheel` does with a timer that would fit into a turn of the lowest wheel, but
-- not into what is left of the current turn.
use async_ery.Base.{ℕ, ◌+◌, ◌-◌, ◌^◌, ◌≤◌, ◌<◌, ◌≡◌, [], ◌∷◌, arith}
use async_ery.Timing.Hierarchical.{Wheel, find_wheel}

-- The wheels of the poll source: their numbers of buckets and ticks, and any indices in range.
pub record IsClock {ℓ} {A : Type ℓ} (minute hour day ten_days : Wheel A) : Type 0 where
  pub minute_shape : (minute.num_buckets ≡ 1200) × (minute.ticks_per_bucket ≡ 1)
  pub hour_shape : (hour.num_buckets ≡ 60) × (hour.ticks_per_bucket ≡ 1200)
  pub day_shape : (day.num_buckets ≡ 24) × (day.ticks_per_bucket ≡ 72_000)
  pub ten_days_shape : (ten_days.num_buckets ≡ 10) × (ten_days.ticks_per_bucket ≡ 1_728_000)
  pub indices :
      (minute.curr_bucket_index < 1200)
      × (hour.curr_bucket_index < 60)
      × (day.curr_bucket_index < 24)

module _ {ℓ} {A : Type ℓ} {minute hour day ten_days : Wheel A}
    (c : IsClock minute hour day ten_days) where
  -- With the four wheels of the timing poll source and any indices in range, a timer of less than a
  -- minute that runs past the end of the minute wheel's turn is put into the
  -- wheel of the days: the ticks left wrap round below zero.
  pub find_wheel-underflow :
      (ticks : ℕ)
      → ticks < 1200
      → 1200 ≤ minute.curr_bucket_index + ticks
      → find_wheel (minute ∷ hour ∷ day ∷ ten_days ∷ []) 0 ticks
        ≡ (3, 2 ^ 64 + ticks - (1200 + 72_000 + 1_728_000))
  unfolding find_wheel
  find_wheel-underflow ticks short late =
      ground (arith, c.minute_shape, c.hour_shape, c.day_shape, c.indices)
