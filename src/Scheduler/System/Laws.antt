-- ===== src/Scheduler/System/Laws.antt =====
-- Which jobs the scheduler runs.
use async_ery.Base.{
  ℕ, ◌+◌, ◌^◌, ◌≤◌, ◌<◌, ◌≡◌, refl, ap, subst, true, Option, none, some, List, [], ◌∷◌, ◌++◌,
  length, total, total-append, ℤ, arith,
}
use async_ery.JobQueue.{default_size}
use async_ery.JobQueue.Laws.{contents}
use async_ery.Timing.Wheel
use async_ery.Timing.Wheel.Refine
use async_ery.Scheduler.Context.{Context}
use async_ery.Scheduler.Pool.Laws.{IsValid, worker_weight, weight, run_weight, work-weight}
use async_ery.Scheduler.Pool.Start.{make_pool_lem}
use async_ery.Scheduler.Pool.Submit.{RoomAt, queue-weight}
use async_ery.Scheduler.Poll.{PollLoop}
use async_ery.Scheduler.Poll.Laws.{polled, begin_poll-weight, poll_round_lem}
use async_ery.Scheduler.System.{
  PollThread, starting, polling, ended, Scheduler, Event, queues, polls, stops, works, make, queue,
  poll_at, apply, ran_first, run,
}

module _ {ℓ} {A World : Type ℓ} {max_size : ℕ} (limit : max_size < 2 ^ 63) (blank : A)
    (moved : A → A) (poll : ℕ → World → List A × World) (poll_frequency : ℕ → ℤ) (per_ms : ℕ) where
  abbrev WheelFits : PollThread → Type 0
  WheelFits (starting sources) = Unit
  WheelFits (polling wheel) = Refine.IsValid wheel
  WheelFits ended = Unit

  -- The queues and the wheel are well formed.
  record IsScheduler (s : Scheduler A World) : Type 0 where
    pool : IsValid max_size s.worker_pool
    wheel : WheelFits s.poll_thread

  -- The jobs that the sources return in a round.
  abbrev returned : PollThread → World → ℕ → List A
  returned (starting sources) world now = []
  returned (polling wheel) world now = (polled poll (Wheel.advance wheel now).0 world).0
  returned ended world now = []

  -- The jobs that an event brings into the scheduler.
  abbrev brings : Scheduler A World → Event A → List A
  brings s (queues ctx jobs) = jobs
  brings s (polls now) = returned s.poll_thread s.world now
  brings s stops = []
  brings s (works i random_worker) = []

  abbrev pub HasRoom : Scheduler A World → Event A → Type 0
  HasRoom s (queues ctx jobs) = RoomAt max_size blank s.worker_pool jobs ctx.worker_id
  HasRoom s (polls now) = RoomAt max_size blank s.worker_pool (brings s (polls now)) none
  HasRoom s stops = Unit
  HasRoom s (works i random_worker) = i < length s.worker_pool.workers

  abbrev after_event : Scheduler A World → Event A → Scheduler A World
  after_event s e = (apply blank poll poll_frequency moved max_size per_ms s e).2

  abbrev pub AllHaveRoom : Scheduler A World → List (Event A) → Type 0
  AllHaveRoom s [] = Unit
  AllHaveRoom s (e ∷ events) = HasRoom s e × AllHaveRoom (after_event s e) events

  abbrev pub brought : Scheduler A World → List (Event A) → List A
  brought s [] = []
  brought s (e ∷ events) = brings s e ++ brought (after_event s e) events

  module _ (pos_ms : 0 < per_ms) (weigh : A → ℕ) where
    -- What an event does to the jobs.
    record Applied (s : Scheduler A World) (e : Event A) : Type ℓ where
      ok : (apply blank poll poll_frequency moved max_size per_ms s e).0 ≡ true
      valid : IsScheduler (after_event s e)
      conserves :
          run_weight limit blank moved weigh
              (apply blank poll poll_frequency moved max_size per_ms s e).1
            + weight blank weigh (after_event s e).worker_pool
          ≡ weight blank weigh s.worker_pool + total weigh (brings s e)

    poll_applied :
        (s : Scheduler A World) (now : ℕ) (t : PollThread)
        → s.poll_thread ≡ t
        → IsScheduler s
        → RoomAt max_size blank s.worker_pool (returned t s.world now) none
        → let (ok, u) = poll_at blank poll poll_frequency moved max_size per_ms t s now in
          (ok ≡ true)
          × IsScheduler u
          × (weight blank weigh u.worker_pool
              ≡ weight blank weigh s.worker_pool + total weigh (returned t s.world now))
    unfolding poll_at
    poll_applied s now (starting sources) same v room =
        let b = begin_poll-weight (λ n. 0) per_ms now s.world s.worker_pool sources pos_ms v.pool in
        (refl, record { pool = v.pool; wheel = b.0.wheel }, omega arith)
    poll_applied s now ended same v room = (refl, v, omega arith)
    poll_applied s now (polling wheel) same v room =
        let loop : PollLoop A World = record {
          poll_scheduler = wheel;
          world = s.world;
          worker_pool = s.worker_pool;
        } in
        let r =
          poll_round_lem limit blank moved poll poll_frequency (λ n. 0) loop now
            (record { wheel = subst WheelFits same v.wheel; pool = v.pool }) room in
        let jobs = returned (polling wheel) s.world now in
        (
          r.0,
          record { pool = r.1.pool; wheel = r.1.wheel },
          omega (
            arith,
            ap (total weigh) r.4,
            total-append weigh (contents blank s.worker_pool.global_queue) jobs,
            ap (total (worker_weight blank weigh)) r.5,
          ),
        )

    apply_lem : (s : Scheduler A World) (e : Event A) → IsScheduler s → HasRoom s e → Applied s e
    unfolding apply queue
    apply_lem s (queues ctx jobs) v room =
        let q = queue-weight limit blank moved weigh jobs s.worker_pool v.pool ctx.worker_id room in
        record {
          ok = q.0;
          valid = record { pool = q.1; wheel = v.wheel };
          conserves = omega (arith, q.2);
        }
    apply_lem s (polls now) v room =
        let r = poll_applied s now s.poll_thread refl v room in
        record { ok = r.0; valid = r.1; conserves = omega (arith, r.2) }
    apply_lem s stops v room = record {
      ok = refl;
      valid = record { pool = v.pool; wheel = tt };
      conserves = omega arith;
    }
    apply_lem s (works i random_worker) v lt =
        let r = work-weight limit blank moved weigh s.worker_pool i random_worker lt v.pool in
        record {
          ok = refl;
          valid = record { pool = r.0; wheel = v.wheel };
          conserves = omega (arith, r.2);
        }

    abbrev pub ran_weight : A × Context → ℕ
    ran_weight r = weigh r.0

    first_ran :
        (job : Option (A × Context)) (jobs : List (A × Context))
        → total ran_weight (ran_first blank poll poll_frequency moved max_size per_ms job jobs)
          ≡ run_weight limit blank moved weigh job + total ran_weight jobs
    first_ran none jobs = omega arith
    first_ran (some job) jobs = refl

    run-weight :
        (events : List (Event A)) (s : Scheduler A World)
        → IsScheduler s
        → AllHaveRoom s events
        → let (ok, jobs, t) = run blank poll poll_frequency moved max_size per_ms s events in
          (ok ≡ true)
          × (total ran_weight jobs + weight blank weigh t.worker_pool
              ≡ weight blank weigh s.worker_pool + total weigh (brought s events))
    unfolding run
    run-weight [] s v room = (refl, omega arith)
    run-weight (e ∷ events) s v room =
        let a = apply_lem s e v room.0 in
        let rest = run-weight events (after_event s e) a.valid room.1 in
        let job = (apply blank poll poll_frequency moved max_size per_ms s e).1 in
        let jobs =
          (run blank poll poll_frequency moved max_size per_ms (after_event s e) events).1 in
        rw (a.ok, run)
          (
            rest.0,
            omega (
              arith,
              rest.1,
              a.conserves,
              first_ran job jobs,
              total-append weigh (brings s e) (brought (after_event s e) events),
            ),
          )

    -- Of a new scheduler, over any interleaving of calls of `queue`, rounds of the polling thread,
    -- rounds of workers and a stop, where the queues keep their room: nothing is thrown, and the jobs
    -- that ran and those that wait in the pool are, by any weight, those that were queued and those that
    -- the poll sources returned. No job is lost or runs twice.
    pub scheduler_lem :
        (n_workers : ℕ) (world : World) (poll_sources : List ℕ) (events : List (Event A))
        → default_size ≤ max_size
        → n_workers < 2 ^ 32
        → AllHaveRoom (make blank n_workers world poll_sources) events
        → let s = make blank n_workers world poll_sources in
          let (ok, jobs, t) = run blank poll poll_frequency moved max_size per_ms s events in
          (ok ≡ true)
          × (total ran_weight jobs + weight blank weigh t.worker_pool
              ≡ total weigh (brought s events))
    unfolding make
    scheduler_lem n_workers world poll_sources events room few ok =
        let p = make_pool_lem blank max_size weigh n_workers room few in
        let r =
          run-weight events (make blank n_workers world poll_sources)
            (record { pool = p.0; wheel = tt }) ok in
        (r.0, omega (arith, r.1, p.2))
