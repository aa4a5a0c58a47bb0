-- ===== src/Scheduler/Pool/Submit.antt =====
-- Where the jobs go that are queued.
use async_ery.Base.{
  ℕ, ◌+◌, ◌*◌, ◌^◌, ◌≤◌, ◌<◌, ◌≡◌, refl, ap, ◌∙◌, ◌≢◌, List, ◌++◌, length, get_or, length-set,
  get_or-set_self, get_or-set_ne, All-get_or, All-set, Option, none, some, total, total-append,
  total-set, true, arith,
}
use async_ery.JobQueue.Laws.{contents}
use async_ery.Scheduler.Context.{empty, of_worker}
use async_ery.Scheduler.Worker.{JobWorker, enqueue_all}
use async_ery.Scheduler.Worker
use async_ery.Scheduler.Pool.{WorkerPool, no_worker, queue}
use async_ery.Scheduler.Pool.Queues.{enqueue_all_lem}
use async_ery.Scheduler.Pool.Laws.{IsWorker, IsValid, worker_weight, weight}

module _ {ℓ} {A : Type ℓ} {max_size : ℕ} (limit : max_size < 2 ^ 63) (blank : A) (moved : A → A)
    (jobs : List A) (p : WorkerPool A) (v : IsValid max_size p) where
  -- In a well-formed pool with room for them, jobs with an empty context go to the end of the global
  -- queue, in their order, and nothing is thrown; no worker's queue changes, and the pool stays well
  -- formed.
  pub queue-empty :
      (length (contents blank p.global_queue) + length jobs) * 2 ≤ max_size
      → let (ok, q) = queue blank moved max_size p empty jobs in
        (ok ≡ true)
        × (contents blank q.global_queue ≡ contents blank p.global_queue ++ jobs)
        × (q.workers ≡ p.workers)
        × IsValid max_size q
  unfolding queue
  queue-empty room =
      let put = enqueue_all_lem limit blank moved jobs v.shared in
      let ok = put.3 room in
      (ok, put.2 ok, refl, record { shared = put.0; own = v.own; few = v.few })

  module _ (i : ℕ) (lt : i < length p.workers) where
    abbrev worker : JobWorker A
    worker = get_or p.workers i (no_worker blank)

    -- In a well-formed pool with room for them, jobs with the context of worker `i` go to the end of
    -- its queue, in their order, and nothing is thrown; no other queue changes, and the pool stays
    -- well formed.
    pub queue-of_worker :
        (length (contents blank worker.job_queue) + length jobs) * 2 ≤ max_size
        → let (ok, q) = queue blank moved max_size p (of_worker i) jobs in
          (ok ≡ true)
          × (contents blank (get_or q.workers i (no_worker blank)).job_queue
              ≡ contents blank worker.job_queue ++ jobs)
          × (q.global_queue ≡ p.global_queue)
          × ((j : ℕ)
              → i ≢ j
              → get_or q.workers j (no_worker blank) ≡ get_or p.workers j (no_worker blank))
          × IsValid max_size q
    unfolding queue Worker.queue
    queue-of_worker room =
        let ok_worker = All-get_or (IsWorker max_size) p.workers i (no_worker blank) lt v.own in
        let put = enqueue_all_lem limit blank moved jobs ok_worker in
        let ok = put.3 room in
        let w' : JobWorker A = record worker {
          job_queue = (enqueue_all blank moved max_size worker.job_queue jobs).1;
        } in
        (
          ok,
          ap (λ (w : JobWorker A). contents blank w.job_queue)
                (get_or-set_self p.workers i w' (no_worker blank) lt)
              ∙ put.2 ok,
          refl,
          (λ j ne. get_or-set_ne p.workers i j w' (no_worker blank) ne),
          record {
            shared = v.shared;
            own = All-set (IsWorker max_size) p.workers i w' put.0 v.own;
            few = omega (arith, length-set p.workers i w', v.few);
          },
        )

-- The queue that jobs are put in is, with them, at most half as long as a vector may be, and a worker
-- that is named is there.
abbrev pub RoomAt {ℓ} : {A : Type ℓ} → ℕ → A → WorkerPool A → List A → Option ℕ → Type 0
RoomAt max_size blank p jobs none =
    (length (contents blank p.global_queue) + length jobs) * 2 ≤ max_size
RoomAt max_size blank p jobs (some i) =
    (i < length p.workers)
    × (length (contents blank (get_or p.workers i (no_worker blank)).job_queue) + length jobs) * 2
      ≤ max_size

module _ {ℓ} {A : Type ℓ} {max_size : ℕ} (limit : max_size < 2 ^ 63) (blank : A) (moved : A → A)
    (weigh : A → ℕ) (jobs : List A) (p : WorkerPool A) (v : IsValid max_size p) where
  -- The jobs are added to those of the pool.
  pub queue-weight :
      (worker_id : Option ℕ)
      → RoomAt max_size blank p jobs worker_id
      → let (ok, q) = queue blank moved max_size p (record { worker_id = worker_id }) jobs in
        (ok ≡ true)
        × IsValid max_size q
        × (weight blank weigh q ≡ weight blank weigh p + total weigh jobs)
  unfolding queue Worker.queue
  queue-weight none room =
      let put = enqueue_all_lem limit blank moved jobs v.shared in
      let ok = put.3 room in
      (
        ok,
        record { shared = put.0; own = v.own; few = v.few },
        omega (
          arith,
          ap (total weigh) (put.2 ok),
          total-append weigh (contents blank p.global_queue) jobs,
        ),
      )
  queue-weight (some i) (lt, room) =
      let w = get_or p.workers i (no_worker blank) in
      let ok_worker = All-get_or (IsWorker max_size) p.workers i (no_worker blank) lt v.own in
      let put = enqueue_all_lem limit blank moved jobs ok_worker in
      let ok = put.3 room in
      let w' : JobWorker A = record w {
        job_queue = (enqueue_all blank moved max_size w.job_queue jobs).1;
      } in
      (
        ok,
        record {
          shared = v.shared;
          own = All-set (IsWorker max_size) p.workers i w' put.0 v.own;
          few = omega (arith, length-set p.workers i w', v.few);
        },
        omega (
          arith,
          ap (total weigh) (put.2 ok),
          total-append weigh (contents blank w.job_queue) jobs,
          total-set (worker_weight blank weigh) p.workers i w' (no_worker blank) lt,
        ),
      )
