-- ===== src/Scheduler/Pool.antt =====
-- src/scheduler/include/scheduler/worker_pool.h and src/scheduler/src/worker_pool.cpp.
pub mod Queues
pub mod Laws
pub mod Busy
pub mod Submit
pub mod Start
mod Tests
use async_ery.Base.{
  ℕ, zero, suc, ◌+◌, ◌%◌, Bool, true, false, Option, none, some, List, [], ◌∷◌, length, get_or, set,
  add_size,
}
use async_ery.JobQueue.{JobQueue, default_size}
use async_ery.JobQueue
use async_ery.Scheduler.Context.{Context, empty, of_worker}
use async_ery.Scheduler.Worker.{JobWorker, steal_job, enqueue_all, start}
use async_ery.Scheduler.Worker

pub record WorkerPool {ℓ} (A : Type ℓ) : Type ℓ where
  pub global_queue : JobQueue A
  pub workers : List (JobWorker A)

module _ {ℓ} {A : Type ℓ} (blank : A) where
  -- What an index out of range reads.
  abbrev pub no_worker : JobWorker A
  no_worker = record {
    worker_context = empty;
    job_queue = record { queue = []; head = 0; tail = 0; current_size = 0 };
    started = false;
  }

  -- The loops of the constructor over `n` workers from number `i` on: create them, then start them.
  unfoldable pub create_workers : ℕ → ℕ → List (JobWorker A)
  create_workers zero i = []
  create_workers (suc n) i = (start (Worker.make blank (of_worker i))).1 ∷ create_workers n (i + 1)

  unfoldable pub make : ℕ → WorkerPool A
  unfolding create_workers
  make n_workers = record {
    global_queue = JobQueue.make blank default_size;
    workers = create_workers n_workers 0;
  }

  module _ (moved : A → A) where
    -- The loop of `find_new_work` with `n` rounds left.
    unfoldable pub steal_from : ℕ → ℕ → List (JobWorker A) → Option A × List (JobWorker A)
    steal_from zero i workers = (none, workers)
    steal_from (suc n) i workers =
        let worker_id = i % length workers in
        let (stolen, victim) = steal_job blank moved (get_or workers worker_id no_worker) in
        let next = steal_from n (add_size i 1) (set workers worker_id victim) in
        elim stolen [ some job ↦ (some job, set workers worker_id victim) | none ↦ next ]

    -- `random_worker` is what the random device and the distribution give.
    unfoldable pub find_new_work : WorkerPool A → ℕ → Option A × WorkerPool A
    unfolding steal_from
    find_new_work p random_worker =
        let (job, global_queue) = JobQueue.dequeue blank moved p.global_queue in
        let (stolen, workers) = steal_from (length p.workers) random_worker p.workers in
        elim job [
          | some j ↦ (some j, record p { global_queue = global_queue })
          | none ↦ (stolen, record { global_queue = global_queue; workers = workers })
        ]

    -- A round of the thread of worker `i`: the job that it runs, with the context it passes on.
    unfoldable pub work : WorkerPool A → ℕ → ℕ → Option (A × Context) × WorkerPool A
    unfolding find_new_work
    work p i random_worker =
        let worker = get_or p.workers i (no_worker) in
        let (own, worker') = steal_job blank moved worker in
        let p' = record p { workers = set p.workers i worker' } in
        let (found, q) = find_new_work p' random_worker in
        elim own [
          | some j ↦ (some (j, worker.worker_context), p')
          | none ↦ (elim found [ some j ↦ some (j, worker.worker_context) | none ↦ none ], q)
        ]

    module _ (max_size : ℕ) where
      -- `false`: the vector of a queue has thrown.
      unfoldable pub queue_at : Option ℕ → WorkerPool A → List A → Bool × WorkerPool A
      queue_at (some worker_id) p jobs =
          let (ok, worker) =
            Worker.queue blank moved max_size (get_or p.workers worker_id (no_worker)) jobs in
          (ok, record p { workers = set p.workers worker_id worker })
      queue_at none p jobs =
          let (ok, global_queue) = enqueue_all blank moved max_size p.global_queue jobs in
          (ok, record p { global_queue = global_queue })

      unfoldable pub queue : WorkerPool A → Context → List A → Bool × WorkerPool A
      unfolding queue_at
      queue p ctx jobs = queue_at ctx.worker_id p jobs
