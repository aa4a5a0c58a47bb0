-- ===== src/Timing/PollSource.antt =====
-- src/timing/include/timing/timing_poll_source.h and src/timing/src/timing_poll_source.cpp. A call is
-- what a thread does while it holds the spin lock; `per_ms` clock units make a millisecond.
pub mod History
mod Tests
use async_ery.Base.{ℕ, ◌*◌, List, [], ◌∷◌, ℤ, pos}
use async_ery.Timing.Hierarchical
use async_ery.Timing.Hierarchical.{HierarchicalTimingWheel}

-- `minutes(1) / milliseconds(50)`, and so on up to ten days.
abbrev pub wheel_sizes : List ℕ
wheel_sizes = 1200 ∷ 60 ∷ 24 ∷ 10 ∷ []

pub record PollSource {ℓ} (A : Type ℓ) : Type ℓ where
  pub wheel : HierarchicalTimingWheel A

-- The constructor, at the time `now`.
unfoldable pub make {ℓ} : (A : Type ℓ) → ℕ → ℕ → PollSource A
make A per_ms now = record { wheel = Hierarchical.make A now (50 * per_ms) wheel_sizes }

abbrev pub poll_frequency : ℕ → ℤ
poll_frequency per_ms = pos (5 * per_ms)

module _ {ℓ} {A : Type ℓ} where
  unfoldable pub schedule : PollSource A → ℤ → A → PollSource A
  schedule s expiry task = record { wheel = Hierarchical.schedule s.wheel expiry task }

  unfoldable pub poll : PollSource A → ℕ → List A × PollSource A
  poll s now =
      let (expired_jobs, wheel) = Hierarchical.advance s.wheel now in
      (expired_jobs, record { wheel = wheel })
