-- ===== src/Scheduler/System.antt =====
-- src/scheduler/include/scheduler/scheduler.h and src/scheduler/src/scheduler.cpp: the scheduler as a
-- whole, with the rounds of its threads one after the other in any order.
mod Laws
mod Tests
use async_ery.Base.{ℕ, Bool, true, false, Option, none, some, List, [], ◌∷◌, ℤ}
use async_ery.Timing.Wheel.{TimingWheel}
use async_ery.Scheduler.Context.{Context}
use async_ery.Scheduler.Pool.{WorkerPool}
use async_ery.Scheduler.Pool
use async_ery.Scheduler.Poll.{PollLoop, begin_poll, poll_round}

-- The thread of `begin_poll`: not yet in its main loop, in it, and after it.
pub data PollThread : Type 0 where
  starting : List ℕ → PollThread
  polling : TimingWheel ℕ → PollThread
  ended : PollThread

-- `world` is the state of the poll sources, which are known by their numbers.
pub record Scheduler {ℓ} (A World : Type ℓ) : Type ℓ where
  pub worker_pool : WorkerPool A
  pub world : World
  pub poll_thread : PollThread

-- A call of `queue`; a round of the polling thread, at a time; a request to stop that thread; and a
-- round of the thread of a worker, with the random number that it draws.
pub data Event {ℓ} (A : Type ℓ) : Type ℓ where
  queues : Context → List A → Event A
  polls : ℕ → Event A
  stops : Event A
  works : ℕ → ℕ → Event A

module _ {ℓ} {A World : Type ℓ} (blank : A) where
  -- The constructor.
  pub make : ℕ → World → List ℕ → Scheduler A World
  make n_workers world poll_sources = record {
    worker_pool = Pool.make blank n_workers;
    world = world;
    poll_thread = starting poll_sources;
  }

  module _ (poll : ℕ → World → List A × World) (poll_frequency : ℕ → ℤ) (moved : A → A)
      (max_size per_ms : ℕ) where
    -- `false`: a queue has thrown.
    pub queue : Scheduler A World → Context → List A → Bool × Scheduler A World
    queue s ctx jobs =
        let (ok, worker_pool) = Pool.queue blank moved max_size s.worker_pool ctx jobs in
        (ok, record s { worker_pool = worker_pool })

    -- `queue` of one job.
    pub queue_job : Scheduler A World → Context → A → Bool × Scheduler A World
    unfolding queue
    queue_job s ctx job = queue s ctx (job ∷ [])

    -- A round of the polling thread, by where it is.
    poll_at : PollThread → Scheduler A World → ℕ → Bool × Scheduler A World
    poll_at (starting poll_sources) s now =
        let loop = begin_poll per_ms now s.world s.worker_pool poll_sources in
        (true, record s { poll_thread = polling loop.poll_scheduler })
    poll_at (polling wheel) s now =
        let (ok, loop) =
          poll_round poll poll_frequency blank moved max_size
            (record { poll_scheduler = wheel; world = s.world; worker_pool = s.worker_pool }) now in
        (
          ok,
          record {
            worker_pool = loop.worker_pool;
            world = loop.world;
            poll_thread = polling loop.poll_scheduler;
          },
        )
    poll_at ended s now = (true, s)

    pub apply : Scheduler A World → Event A → Bool × Option (A × Context) × Scheduler A World
    unfolding queue poll_at
    apply s (queues ctx jobs) = let (ok, t) = queue s ctx jobs in (ok, none, t)
    apply s (polls now) = let (ok, t) = poll_at s.poll_thread s now in (ok, none, t)
    apply s stops = (true, none, record s { poll_thread = ended })
    apply s (works i random_worker) =
        let (job, worker_pool) = Pool.work blank moved s.worker_pool i random_worker in
        (true, job, record s { worker_pool = worker_pool })

    -- The jobs that ran, in their order. An exception ends the program.
    abbrev ran_first : Option (A × Context) → List (A × Context) → List (A × Context)
    ran_first none jobs = jobs
    ran_first (some job) jobs = job ∷ jobs

    pub run : Scheduler A World → List (Event A) → Bool × List (A × Context) × Scheduler A World
    unfolding apply
    run s [] = (true, [], s)
    run s (e ∷ events) =
        let (ok, job, t) = apply s e in
        let (ok', jobs, u) = run t events in
        elim ok [ true ↦ (ok', ran_first job jobs, u) | false ↦ (false, ran_first job [], t) ]
