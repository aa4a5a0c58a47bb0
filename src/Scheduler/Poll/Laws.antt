-- ===== src/Scheduler/Poll/Laws.antt =====
-- The poll sources and the jobs in a round of the poll loop.
use async_ery.Base.{
  ℕ, ◌+◌, ◌*◌, ◌^◌, ◌≤◌, ◌<◌, ◌≡◌, refl, sym, ap, ◌∙◌, append-nil, append_assoc, List, [], ◌∷◌,
  ◌++◌, length, length-append, total, Bool, true, ℤ, pos, arith,
}
use async_ery.JobQueue.Laws.{contents}
use async_ery.Timing.Wheel
use async_ery.Timing.Wheel.Refine
use async_ery.Timing.Wheel.Conserve.{
  weight, make-IsValid, make-weight, schedule-weight, advance-weight,
}
use async_ery.Scheduler.Context.{empty}
use async_ery.Scheduler.Pool.{WorkerPool}
use async_ery.Scheduler.Pool
use async_ery.Scheduler.Pool.Laws.{IsValid}
use async_ery.Scheduler.Pool.Submit.{queue-empty}
use async_ery.Scheduler.Poll.{
  PollLoop, num_ticks, schedule_poll_source, schedule_all, begin_poll, poll_ready, poll_round,
}

-- The wheel and the pool are well formed.
pub record IsLoop {ℓ} {A World : Type ℓ} (max_size : ℕ) (s : PollLoop A World) : Type 0 where
  pub wheel : Refine.IsValid s.poll_scheduler
  pub pool : IsValid max_size s.worker_pool

module _ {ℓ} {A World : Type ℓ} (p : ℕ → ℕ) where
  schedule_all-weight :
      {max_size : ℕ} (sources : List ℕ) (s : PollLoop A World)
      → IsLoop max_size s
      → IsLoop max_size (schedule_all s sources)
        × (weight p (schedule_all s sources).poll_scheduler
            ≡ weight p s.poll_scheduler + total p sources)
  unfolding schedule_all schedule_poll_source
  schedule_all-weight [] s v = (v, omega arith)
  schedule_all-weight (source ∷ sources) s v =
      let one = schedule-weight p s.poll_scheduler (pos 0) source v.wheel in
      let rest =
        schedule_all-weight sources (schedule_poll_source s (pos 0) source)
          (record { wheel = one.0; pool = v.pool }) in
      (rest.0, omega (arith, rest.1, one.1))

  -- With a well-formed pool, the thread starts with a well-formed loop in which every poll source is
  -- scheduled once.
  pub begin_poll-weight :
      {max_size : ℕ} (per_ms now : ℕ) (world : World) (pool : WorkerPool A) (sources : List ℕ)
      → 0 < per_ms
      → IsValid max_size pool
      → IsLoop max_size (begin_poll per_ms now world pool sources)
        × (weight p (begin_poll per_ms now world pool sources).poll_scheduler ≡ total p sources)
  unfolding begin_poll
  begin_poll-weight per_ms now world pool sources pos_ms v =
      let all =
        schedule_all-weight sources
          (record {
            poll_scheduler = Wheel.make ℕ now (10 * per_ms) num_ticks;
            world = world;
            worker_pool = pool;
          })
          (record {
            wheel = make-IsValid now (10 * per_ms) num_ticks (omega arith) (omega arith);
            pool = v;
          }) in
      (all.0, omega (arith, all.1, make-weight p now (10 * per_ms) num_ticks))

-- The jobs that the sources return when they are polled one after the other.
unfoldable pub polled {ℓ} :
    {A World : Type ℓ} → (ℕ → World → List A × World) → List ℕ → World → List A × World
polled poll [] world = ([], world)
polled poll (source ∷ sources) world =
    let (jobs, world') = poll source world in
    let (rest, world'') = polled poll sources world' in (jobs ++ rest, world'')

module _ {ℓ} {A World : Type ℓ} {max_size : ℕ} (limit : max_size < 2 ^ 63) (blank : A)
    (moved : A → A) (poll : ℕ → World → List A × World) (poll_frequency : ℕ → ℤ) (p : ℕ → ℕ) where
  -- From `s` to `t` the sources in `ready` were polled.
  record Polled (s : PollLoop A World) (ready : List ℕ) (result : Bool × PollLoop A World)
      : Type ℓ where
    pub ok : result.0 ≡ true
    pub valid : IsLoop max_size result.1
    pub jobs :
        contents blank result.1.worker_pool.global_queue
        ≡ contents blank s.worker_pool.global_queue ++ (polled poll ready s.world).0
    pub world : result.1.world ≡ (polled poll ready s.world).1
    pub workers : result.1.worker_pool.workers ≡ s.worker_pool.workers
    pub scheduled : weight p result.1.poll_scheduler ≡ weight p s.poll_scheduler + total p ready

  abbrev Room : PollLoop A World → List ℕ → Type 0
  Room s ready =
      (length (contents blank s.worker_pool.global_queue) + length (polled poll ready s.world).0)
        * 2
      ≤ max_size

  -- Each source that is ready is polled, its jobs go to the end of the global queue, and it is
  -- scheduled again.
  poll_ready_lem :
      (ready : List ℕ) (s : PollLoop A World)
      → IsLoop max_size s
      → Room s ready
      → Polled s ready (poll_ready poll poll_frequency blank moved max_size s ready)
  unfolding poll_ready polled schedule_poll_source
  poll_ready_lem [] s v room = record {
    ok = refl;
    valid = v;
    jobs = sym (append-nil (contents blank s.worker_pool.global_queue));
    world = refl;
    workers = refl;
    scheduled = omega arith;
  }
  poll_ready_lem (source ∷ sources) s v room =
      let jobs = (poll source s.world).0 in
      let world = (poll source s.world).1 in
      let rest = (polled poll sources world).0 in
      let queued =
        queue-empty limit blank moved jobs s.worker_pool v.pool
          (omega (arith, room, length-append jobs rest)) in
      let mid : PollLoop A World = record s {
        world = world;
        worker_pool = (Pool.queue blank moved max_size s.worker_pool empty jobs).1;
      } in
      let again = schedule-weight p s.poll_scheduler (poll_frequency source) source v.wheel in
      let next = schedule_poll_source mid (poll_frequency source) source in
      let ih =
        poll_ready_lem sources next (record { wheel = again.0; pool = queued.3 })
          (omega (
            arith,
            room,
            ap length queued.1,
            length-append (contents blank s.worker_pool.global_queue) jobs,
            length-append jobs rest,
          )) in
      rw (queued.0, poll_ready)
        (record {
          ok = ih.ok;
          valid = ih.valid;
          jobs =
              ih.jobs
              ∙ ap (λ xs. xs ++ rest) queued.1
              ∙ append_assoc (contents blank s.worker_pool.global_queue) jobs rest;
          world = ih.world;
          workers = ih.workers ∙ queued.2;
          scheduled = omega (arith, ih.scheduled, again.1);
        })

  -- With room for the jobs, a round of the main loop polls the sources that are due, one after the
  -- other, puts their jobs at the end of the global queue and none in another, throws nothing, and schedules each of
  -- them again: every source stays scheduled as often as it was. The loop stays well formed.
  pub poll_round_lem :
      (s : PollLoop A World) (now : ℕ)
      → IsLoop max_size s
      → Room s (Wheel.advance s.poll_scheduler now).0
      → let result = poll_round poll poll_frequency blank moved max_size s now in
        let ready = (Wheel.advance s.poll_scheduler now).0 in
        (result.0 ≡ true)
        × IsLoop max_size result.1
        × (weight p result.1.poll_scheduler ≡ weight p s.poll_scheduler)
        × (result.1.world ≡ (polled poll ready s.world).1)
        × (contents blank result.1.worker_pool.global_queue
            ≡ contents blank s.worker_pool.global_queue ++ (polled poll ready s.world).0)
        × (result.1.worker_pool.workers ≡ s.worker_pool.workers)
  unfolding poll_round
  poll_round_lem s now v room =
      let (ready, wheel) = Wheel.advance s.poll_scheduler now in
      let advanced = advance-weight p s.poll_scheduler now v.wheel in
      let done =
        poll_ready_lem ready (record s { poll_scheduler = wheel })
          (record { wheel = advanced.0; pool = v.pool }) room in
      (
        done.ok,
        done.valid,
        omega (arith, done.scheduled, advanced.1),
        done.world,
        done.jobs,
        done.workers,
      )
