-- ===== src/Scheduler/Pool/Start.antt =====
-- The pool that the constructor makes.
use async_ery.Base.{
  ℕ, zero, suc, ◌+◌, ◌^◌, ◌≤◌, ◌<◌, ◌≡◌, refl, ap, ◌∙◌, sym, true, length, get_or, total, All,
  arith,
}
use async_ery.JobQueue.{JobQueue, default_size}
use async_ery.JobQueue
use async_ery.JobQueue.Laws.{make-IsValid}
use async_ery.Scheduler.Context.{of_worker}
use async_ery.Scheduler.Worker.{JobWorker, start}
use async_ery.Scheduler.Worker
use async_ery.Scheduler.Pool.{no_worker, create_workers, make}
use async_ery.Scheduler.Pool.Laws.{IsValid, IsWorker, weight, worker_weight}

module _ {ℓ} {A : Type ℓ} (blank : A) where
  -- A worker that was made and started.
  abbrev pub started_worker : ℕ → JobWorker A
  started_worker i = record {
    worker_context = of_worker i;
    job_queue = JobQueue.make blank default_size;
    started = true;
  }

  module _ (max_size : ℕ) (weigh : A → ℕ) (room : default_size ≤ max_size) where
    create_workers_lem :
        (n i : ℕ)
        → All (IsWorker max_size) (create_workers blank n i)
          × (length (create_workers blank n i) ≡ n)
          × (total (worker_weight blank weigh) (create_workers blank n i) ≡ 0)
    unfolding create_workers Worker.make start
    create_workers_lem zero i = (tt, refl, refl)
    create_workers_lem (suc n) i =
        let fresh = make-IsValid max_size blank default_size (omega arith) room in
        let rest = create_workers_lem n (i + 1) in
        let none_here = ap (total weigh) fresh.1 in
        ((fresh.0, rest.0), ap suc rest.1, omega (arith, none_here, rest.2))

  created :
      (n i j : ℕ)
      → j < n
      → get_or (create_workers blank n i) j (no_worker blank) ≡ started_worker (i + j)
  unfolding create_workers Worker.make start
  created zero i j lt = absurd (omega arith)
  created (suc n) i zero lt = let e : i + zero ≡ i = omega arith in ap started_worker (sym e)
  created (suc n) i (suc j) lt =
      let e : i + 1 + j ≡ i + suc j = omega arith in
      created n (i + 1) j (omega arith) ∙ ap started_worker e

  -- The constructor, where a vector may hold the first size of a queue and `n` is an `unsigned int`,
  -- makes a well-formed pool with no job and `n` workers; worker `i` is started, has the context with
  -- its own number, and an empty queue.
  pub make_pool_lem :
      (max_size : ℕ) (weigh : A → ℕ) (n : ℕ)
      → default_size ≤ max_size
      → n < 2 ^ 32
      → IsValid max_size (make blank n)
        × (length (make blank n).workers ≡ n)
        × (weight blank weigh (make blank n) ≡ 0)
        × ((i : ℕ) → i < n → get_or (make blank n).workers i (no_worker blank) ≡ started_worker i)
  unfolding make
  make_pool_lem max_size weigh n room few =
      let shared = make-IsValid max_size blank default_size (omega arith) room in
      let own = create_workers_lem max_size weigh room n 0 in
      (
        record { shared = shared.0; own = own.0; few = omega (arith, own.1) },
        own.1,
        omega (arith, ap (total weigh) shared.1, own.2),
        λ i lt. created n 0 i lt ∙ ap started_worker (omega arith),
      )
