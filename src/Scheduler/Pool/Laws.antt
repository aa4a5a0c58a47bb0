-- ===== src/Scheduler/Pool/Laws.antt =====
-- When a pool is well formed, and how many jobs wait in it.
use native.Mathlib.Nat.{mod-lt}
use async_ery.Base.{
  ℕ, zero, suc, ◌+◌, ◌%◌, ◌^◌, ◌<◌, ◌≡◌, refl, ap, ◌∙◌, inl, inr, Option, none, some, Option-cases,
  List, length, get_or, set, length-set, All, All-get_or, All-set, total, total-set, add_size,
  arith,
}
use async_ery.JobQueue.{dequeue}
use async_ery.JobQueue.Laws
use async_ery.JobQueue.Laws.{contents}
use async_ery.Scheduler.Context.{Context}
use async_ery.Scheduler.Worker.{JobWorker, steal_job}
use async_ery.Scheduler.Pool.{WorkerPool, no_worker, steal_from, find_new_work, work}
use async_ery.Scheduler.Pool.Queues.{found_weight, dequeue-total}

abbrev pub IsWorker {ℓ} : {A : Type ℓ} → ℕ → JobWorker A → Type 0
IsWorker max_size w = Laws.IsValid max_size w.job_queue

-- Every queue of the pool is well formed.
pub record IsValid {ℓ} {A : Type ℓ} (max_size : ℕ) (p : WorkerPool A) : Type 0 where
  pub shared : Laws.IsValid max_size p.global_queue
  pub own : All (IsWorker max_size) p.workers
  pub few : length p.workers < 2 ^ 32

module _ {ℓ} {A : Type ℓ} (blank : A) (weigh : A → ℕ) where
  abbrev pub worker_weight : JobWorker A → ℕ
  worker_weight w = total weigh (contents blank w.job_queue)

  -- The jobs that wait in the pool.
  abbrev pub weight : WorkerPool A → ℕ
  weight p = total weigh (contents blank p.global_queue) + total worker_weight p.workers

module _ {ℓ} {A : Type ℓ} {max_size : ℕ} (limit : max_size < 2 ^ 63) (blank : A)
    (moved : A → A) where
  module _ (weigh : A → ℕ) where
    steal_job_lem :
        (w : JobWorker A)
        → IsWorker max_size w
        → let (job, w') = steal_job blank moved w in
          IsWorker max_size w'
          × (found_weight weigh job + worker_weight blank weigh w' ≡ worker_weight blank weigh w)
    unfolding steal_job
    steal_job_lem w v =
        (Laws.dequeue-IsValid limit blank moved v, dequeue-total limit blank moved v weigh)

    -- Taking a job from worker `i`.
    take-weight :
        (ws : List (JobWorker A)) (i : ℕ)
        → i < length ws
        → All (IsWorker max_size) ws
        → let (job, w') = steal_job blank moved (get_or ws i (no_worker blank)) in
          All (IsWorker max_size) (set ws i w')
          × (length (set ws i w') ≡ length ws)
          × (found_weight weigh job + total (worker_weight blank weigh) (set ws i w')
              ≡ total (worker_weight blank weigh) ws)
    take-weight ws i lt all =
        let w = get_or ws i (no_worker blank) in
        let w' = (steal_job blank moved w).1 in
        let one = steal_job_lem w (All-get_or (IsWorker max_size) ws i (no_worker blank) lt all) in
        (
          All-set (IsWorker max_size) ws i w' one.0 all,
          length-set ws i w',
          omega (arith, one.1, total-set (worker_weight blank weigh) ws i w' (no_worker blank) lt),
        )

    steal_from-weight :
        (n i : ℕ) (ws : List (JobWorker A))
        → 0 < length ws
        → All (IsWorker max_size) ws
        → let (job, vs) = steal_from blank moved n i ws in
          All (IsWorker max_size) vs
          × (length vs ≡ length ws)
          × (found_weight weigh job + total (worker_weight blank weigh) vs
              ≡ total (worker_weight blank weigh) ws)
    unfolding steal_from
    steal_from-weight zero i ws pos all = (all, refl, omega arith)
    steal_from-weight (suc n) i ws pos all =
        let k = i % length ws in
        let w = get_or ws k (no_worker blank) in
        let w' = (steal_job blank moved w).1 in
        let one = take-weight ws k (mod-lt i pos) all in
        elim (Option-cases (steal_job blank moved w).0) [
          | inl e ↦
              let rest =
                steal_from-weight n (add_size i 1) (set ws k w') (omega (arith, one.1)) one.0 in
              let stolen = ap (found_weight weigh) e in
              rw (e, steal_from) (rest.0, rest.1 ∙ one.1, omega (arith, rest.2, one.2, stolen))
          | inr (j, e) ↦
              let stolen = ap (found_weight weigh) e in
              rw (e, steal_from) (one.0, one.1, omega (arith, one.2, stolen))
        ]

    find_new_work-weight :
        (p : WorkerPool A) (random_worker : ℕ)
        → 0 < length p.workers
        → IsValid max_size p
        → let (job, q) = find_new_work blank moved p random_worker in
          IsValid max_size q
          × (length q.workers ≡ length p.workers)
          × (found_weight weigh job + weight blank weigh q ≡ weight blank weigh p)
    unfolding find_new_work
    find_new_work-weight p random_worker pos v =
        let first = dequeue-total limit blank moved v.shared weigh in
        let shared = Laws.dequeue-IsValid limit blank moved v.shared in
        let job = (dequeue blank moved p.global_queue).0 in
        let rest = steal_from-weight (length p.workers) random_worker p.workers pos v.own in
        elim (Option-cases job) [
          | inl e ↦
              let none_shared = ap (found_weight weigh) e in
              rw (e, find_new_work)
                (
                  record { shared = shared; own = rest.0; few = omega (arith, rest.1, v.few) },
                  rest.1,
                  omega (arith, first, rest.2, none_shared),
                )
          | inr (j, e) ↦
              let one_shared = ap (found_weight weigh) e in
              rw (e, find_new_work)
                (
                  record { shared = shared; own = v.own; few = v.few },
                  refl,
                  omega (arith, first, one_shared),
                )
        ]

    abbrev pub run_weight : Option (A × Context) → ℕ
    run_weight none = 0
    run_weight (some (job, ctx)) = weigh job

    -- In a well-formed pool a round of worker `i` takes one job out of the pool and runs it, or takes
    -- none out, whatever random number it draws: no job is lost or runs twice, by any weight of the
    -- jobs, and the pool stays well formed.
    pub work-weight :
        (p : WorkerPool A) (i random_worker : ℕ)
        → i < length p.workers
        → IsValid max_size p
        → let (ran, q) = work blank moved p i random_worker in
          IsValid max_size q
          × (length q.workers ≡ length p.workers)
          × (run_weight ran + weight blank weigh q ≡ weight blank weigh p)
    unfolding work
    work-weight p i random_worker lt v =
        let w = get_or p.workers i (no_worker blank) in
        let w' = (steal_job blank moved w).1 in
        let one = take-weight p.workers i lt v.own in
        let p' = record p { workers = set p.workers i w' } in
        let v' : IsValid max_size p' = record {
          shared = v.shared;
          own = one.0;
          few = omega (arith, one.1, v.few);
        } in
        let rest = find_new_work-weight p' random_worker (omega (arith, one.1, lt)) v' in
        elim (Option-cases (steal_job blank moved w).0) [
          | inr (j, e) ↦
              let mine = ap (found_weight weigh) e in
              rw (e, work) (v', one.1, omega (arith, one.2, mine))
          | inl e ↦
              let mine = ap (found_weight weigh) e in
              elim (Option-cases (find_new_work blank moved p' random_worker).0) [
                | inl f ↦
                    let theirs = ap (found_weight weigh) f in
                    rw (e, f, work)
                      (rest.0, rest.1 ∙ one.1, omega (arith, rest.2, one.2, mine, theirs))
                | inr (j, f) ↦
                    let theirs = ap (found_weight weigh) f in
                    rw (e, f, work)
                      (rest.0, rest.1 ∙ one.1, omega (arith, rest.2, one.2, mine, theirs))
              ]
        ]
