-- ===== src/Scheduler/Poll.antt =====
-- src/scheduler/include/scheduler/scheduler.h and src/scheduler/src/scheduler.cpp.
pub mod Laws
mod Tests
use async_ery.Base.{ℕ, ◌*◌, Bool, true, false, List, [], ◌∷◌, ℤ, pos}
use async_ery.Timing.Wheel
use async_ery.Timing.Wheel.{TimingWheel}
use async_ery.Scheduler.Context.{Context, empty}
use async_ery.Scheduler.Pool.{WorkerPool}
use async_ery.Scheduler.Pool

-- `minutes(1) / milliseconds(10)`
abbrev pub num_ticks : ℕ
num_ticks = 6000

-- A poll source is known by its number; `world` is the state of all of them.
pub record PollLoop {ℓ} (A : Type ℓ) (World : Type ℓ) : Type ℓ where
  pub poll_scheduler : TimingWheel ℕ
  pub world : World
  pub worker_pool : WorkerPool A

module _ {ℓ} {A World : Type ℓ} where
  unfoldable pub schedule_poll_source : PollLoop A World → ℤ → ℕ → PollLoop A World
  schedule_poll_source s time source = record s {
    poll_scheduler = Wheel.schedule s.poll_scheduler time source;
  }

  -- The first loop of `begin_poll`.
  unfoldable pub schedule_all : PollLoop A World → List ℕ → PollLoop A World
  unfolding schedule_poll_source
  schedule_all s [] = s
  schedule_all s (source ∷ sources) = schedule_all (schedule_poll_source s (pos 0) source) sources

  -- `begin_poll` up to its main loop, at the time `now`; `per_ms` clock units make a millisecond.
  unfoldable pub begin_poll : ℕ → ℕ → World → WorkerPool A → List ℕ → PollLoop A World
  unfolding schedule_all
  begin_poll per_ms now world worker_pool poll_sources =
      schedule_all
        (record {
          poll_scheduler = Wheel.make ℕ now (10 * per_ms) num_ticks;
          world = world;
          worker_pool = worker_pool;
        })
        poll_sources

  -- The virtual calls of a poll source, and the parameters of the queues.
  module _ (poll : ℕ → World → List A × World) (poll_frequency : ℕ → ℤ) (blank : A) (moved : A → A)
      (max_size : ℕ) where
    -- The body of the main loop over the sources that are ready; `false`: a queue has thrown, which
    -- ends the thread.
    unfoldable pub poll_ready : PollLoop A World → List ℕ → Bool × PollLoop A World
    unfolding schedule_poll_source
    poll_ready s [] = (true, s)
    poll_ready s (source ∷ sources) =
        let (jobs, world) = poll source s.world in
        let (ok, worker_pool) = Pool.queue blank moved max_size s.worker_pool empty jobs in
        let polled = record s { world = world; worker_pool = worker_pool } in
        elim ok [
          | true ↦ poll_ready (schedule_poll_source polled (poll_frequency source) source) sources
          | false ↦ (false, polled)
        ]

    -- A round of the main loop, at the time `now`.
    unfoldable pub poll_round : PollLoop A World → ℕ → Bool × PollLoop A World
    unfolding poll_ready
    poll_round s now =
        let (ready, poll_scheduler) = Wheel.advance s.poll_scheduler now in
        poll_ready (record s { poll_scheduler = poll_scheduler }) ready
