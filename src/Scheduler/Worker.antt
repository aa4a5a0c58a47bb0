-- ===== src/Scheduler/Worker.antt =====
-- src/scheduler/include/scheduler/worker.h and src/scheduler/src/worker.cpp. The handle for stealing
-- is `Pool.find_new_work`, and a round of the worker's thread is `Pool.work`.
use async_ery.Base.{ℕ, Bool, true, false, Option, none, some, List, [], ◌∷◌, if◌then◌else◌}
use async_ery.JobQueue.{JobQueue, default_size}
use async_ery.JobQueue
use async_ery.Scheduler.Context.{Context}

-- `started`: the optional thread is there.
pub record JobWorker {ℓ} (A : Type ℓ) : Type ℓ where
  pub worker_context : Context
  pub job_queue : JobQueue A
  pub started : Bool

unfoldable pub make {ℓ} : {A : Type ℓ} → A → Context → JobWorker A
make blank worker_context = record {
  worker_context = worker_context;
  job_queue = JobQueue.make blank default_size;
  started = false;
}

-- Whether the thread was started by this call.
unfoldable pub start {ℓ} : {A : Type ℓ} → JobWorker A → Bool × JobWorker A
start w = if w.started then (false, w) else (true, record w { started = true })

module _ {ℓ} {A : Type ℓ} (blank : A) (moved : A → A) where
  unfoldable pub steal_job : JobWorker A → Option A × JobWorker A
  steal_job w =
      let (job, q) = JobQueue.dequeue blank moved w.job_queue in (job, record w { job_queue = q })

  module _ (max_size : ℕ) where
    -- The loop over the jobs of a call; `false` once the vector has thrown, with the jobs before it
    -- in the queue.
    unfoldable pub enqueue_all : JobQueue A → List A → Bool × JobQueue A
    enqueue_all q [] = (true, q)
    enqueue_all q (job ∷ jobs) = elim (JobQueue.enqueue blank moved max_size q job) [
      | none ↦ (false, q)
      | some r ↦ enqueue_all r jobs
    ]

    unfoldable pub queue : JobWorker A → List A → Bool × JobWorker A
    unfolding enqueue_all
    queue w jobs = let (ok, q) = enqueue_all w.job_queue jobs in (ok, record w { job_queue = q })

    -- `queue` of one job.
    unfoldable pub queue_job : JobWorker A → A → Bool × JobWorker A
    unfolding queue
    queue_job w job = queue w (job ∷ [])
