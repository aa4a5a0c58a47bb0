-- ===== src/Scheduler/Pool/Tests.antt =====
-- A pool of two workers: the second has the only job.
use async_ery.Base.{
  ℕ, ◌+◌, ◌^◌, ◌<◌, ◌≡◌, ◌≢◌, refl, none, some, true, [], ◌∷◌, length, get_or, arith,
}
use async_ery.JobQueue.{JobQueue, size, dequeue, dequeue_locked}
use async_ery.JobQueue.Laws.{contents}
use async_ery.JobQueue.Laws
use async_ery.Scheduler.Context.{of_worker}
use async_ery.Scheduler.Worker.{JobWorker, steal_job}
use async_ery.Scheduler.Pool.{WorkerPool, no_worker, make, work, find_new_work, steal_from, queue}
use async_ery.Scheduler.Pool.Laws.{IsValid, weight, run_weight, work-weight}
use async_ery.Scheduler.Pool.Busy.{work-none}
use async_ery.Scheduler.Pool.Start.{started_worker, make_pool_lem}
use async_ery.Scheduler.Pool.Submit.{queue-of_worker}

abbrev limit : 100 < 2 ^ 63
limit = omega arith

abbrev moved_from : ℕ → ℕ
moved_from x = 0

abbrev one : ℕ → ℕ
one x = 1

abbrev bare : JobQueue ℕ
bare = record { queue = 0 ∷ 0 ∷ []; head = 1; tail = 1; current_size = 0 }

abbrev bare-IsValid : Laws.IsValid 100 bare
bare-IsValid = omega arith

abbrev loaded : JobQueue ℕ
loaded = record { queue = 0 ∷ 7 ∷ []; head = 1; tail = 0; current_size = 1 }

abbrev loaded-IsValid : Laws.IsValid 100 loaded
loaded-IsValid = omega arith

abbrev on_worker : ℕ → JobQueue ℕ → JobWorker ℕ
on_worker i q = record { worker_context = of_worker i; job_queue = q; started = true }

abbrev pool : WorkerPool ℕ
pool = record { global_queue = bare; workers = on_worker 0 bare ∷ on_worker 1 loaded ∷ [] }

abbrev pool-IsValid : IsValid 100 pool
pool-IsValid = record {
  shared = bare-IsValid;
  own = (bare-IsValid, (loaded-IsValid, tt));
  few = omega arith;
}

abbrev idle_pool : WorkerPool ℕ
idle_pool = record { global_queue = bare; workers = on_worker 0 bare ∷ on_worker 1 bare ∷ [] }

abbrev idle_pool-IsValid : IsValid 100 idle_pool
idle_pool-IsValid = record {
  shared = bare-IsValid;
  own = (bare-IsValid, (bare-IsValid, tt));
  few = omega arith;
}

-- Worker 0 steals the job of worker 1.
work-weight_example :
    let (ran, q) = work 0 moved_from pool 0 0 in
    IsValid 100 q
    × (length q.workers ≡ 2)
    × (run_weight limit 0 moved_from one ran + weight 0 one q ≡ 1)
work-weight_example = work-weight limit 0 moved_from one pool 0 0 (omega arith) pool-IsValid

nothing_found : (work 0 moved_from idle_pool 0 1).0 ≡ none
unfolding work find_new_work steal_from steal_job dequeue dequeue_locked size
nothing_found = refl

-- Worker 0 runs the job of worker 1, in its own context.
steal-run : (work 0 moved_from pool 0 0).0 ≡ some (7, of_worker 0)
unfolding work find_new_work steal_from steal_job dequeue dequeue_locked size
steal-run = refl

work-none_example : weight 0 one idle_pool ≡ 0
work-none_example =
    work-none limit 0 moved_from one idle_pool 0 1 (omega arith) (omega arith) idle_pool-IsValid
      nothing_found

queue-of_worker_example :
    let (ok, q) = queue 0 moved_from 100 pool (of_worker 1) (8 ∷ 9 ∷ []) in
    (ok ≡ true)
    × (contents 0 (get_or q.workers 1 (no_worker 0)).job_queue ≡ 7 ∷ 8 ∷ 9 ∷ [])
    × (q.global_queue ≡ bare)
    × ((j : ℕ) → 1 ≢ j → get_or q.workers j (no_worker 0) ≡ get_or pool.workers j (no_worker 0))
    × IsValid 100 q
queue-of_worker_example =
    queue-of_worker limit 0 moved_from (8 ∷ 9 ∷ []) pool pool-IsValid 1 (omega arith) (omega arith)

abbrev new_pool : WorkerPool ℕ
new_pool = make 0 2

make_pool_lem_example :
    IsValid 2000 new_pool
    × (length new_pool.workers ≡ 2)
    × (weight 0 one new_pool ≡ 0)
    × ((i : ℕ) → i < 2 → get_or new_pool.workers i (no_worker 0) ≡ started_worker 0 i)
make_pool_lem_example = make_pool_lem 0 2000 one 2 (omega arith) (omega arith)
