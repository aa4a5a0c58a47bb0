-- ===== src/Scheduler/Pool/Busy.antt =====
-- What a worker that finds nothing to do tells of the pool.
use native.Mathlib.Nat.{mod-lt}
use async_ery.Base.{
  ℕ, zero, suc, ◌+◌, ◌-◌, ◌%◌, ◌^◌, ◌<◌, ◌≡◌, ap, ◌∙◌, inl, inr, none, some, Option-cases, List, [],
  length, get_or, set, set_self, All, All-get_or, total, total-eq-zero, add_size, end_slot, ℕ-cases,
  arith,
}
use async_ery.JobQueue.{dequeue}
use async_ery.JobQueue.Laws.{contents}
use async_ery.Scheduler.Worker.{JobWorker, steal_job}
use async_ery.Scheduler.Pool.{WorkerPool, no_worker, steal_from, find_new_work, work}
use async_ery.Scheduler.Pool.Queues.{dequeue-idle}
use async_ery.Scheduler.Pool.Laws.{IsWorker, IsValid, worker_weight, weight}

module _ {ℓ} {A : Type ℓ} {max_size : ℕ} (limit : max_size < 2 ^ 63) (blank : A)
    (moved : A → A) where
  steal_job-none :
      (w : JobWorker A)
      → IsWorker max_size w
      → (steal_job blank moved w).0 ≡ none
      → (contents blank w.job_queue ≡ []) × ((steal_job blank moved w).1 ≡ w)
  unfolding steal_job
  steal_job-none w v h =
      let idle = dequeue-idle limit blank moved v h in
      (idle.0, ap (λ q. record w { job_queue = q }) idle.1)

  abbrev Idle : List (JobWorker A) → ℕ → Type ℓ
  Idle ws i = contents blank (get_or ws i (no_worker blank)).job_queue ≡ []

  module _ (n i : ℕ) (ws : List (JobWorker A)) where
    abbrev victim : JobWorker A
    victim = get_or ws (i % length ws) (no_worker blank)

    steal-hit :
        (job : A)
        → (steal_job blank moved victim).0 ≡ some job
        → (steal_from blank moved (suc n) i ws).0 ≡ some job
    unfolding steal_from
    steal-hit job e = rw (e, steal_from)

    steal-miss :
        IsWorker max_size victim
        → (steal_job blank moved victim).0 ≡ none
        → steal_from blank moved (suc n) i ws ≡ steal_from blank moved n (add_size i 1) ws
    unfolding steal_from
    steal-miss v e =
        let same =
          ap (set ws (i % length ws)) (steal_job-none victim v e).1
          ∙ set_self ws (i % length ws) (no_worker blank) in
        rw (e, steal_from, same)

  -- A loop that ends with nothing has passed over empty queues only.
  steal_from-none :
      (n i : ℕ) (ws : List (JobWorker A))
      → 0 < length ws
      → i + n < 2 ^ 64
      → All (IsWorker max_size) ws
      → (steal_from blank moved n i ws).0 ≡ none
      → (k : ℕ) → k < n
      → Idle ws ((i + k) % length ws)
  steal_from-none zero i ws pos small all h k lt = absurd (omega arith)
  steal_from-none (suc n) i ws pos small all h k lt =
      let v =
        All-get_or (IsWorker max_size) ws (i % length ws) (no_worker blank) (mod-lt i pos) all in
      elim (Option-cases (steal_job blank moved (victim n i ws)).0) [
        | inr (job, e) ↦ let hit = steal-hit n i ws job e in cc
        | inl e ↦
            let step : add_size i 1 ≡ i + 1 = omega arith in
            let rest =
              steal_from-none n (i + 1) ws pos (omega arith) all
                (rw (steal-miss n i ws v e, step) at h) in
            elim (ℕ-cases k) [
              | inl z ↦
                  let here : i + k ≡ i = omega arith in
                  rw here (steal_job-none (victim n i ws) v e).0
              | inr (m, z) ↦
                  let there : i + k ≡ i + 1 + m = omega arith in rw there (rest m (omega arith))
            ]
      ]

  -- Every worker's queue is passed in a whole turn.
  All-Idle :
      (r : ℕ) (ws : List (JobWorker A))
      → r < length ws
      → length ws < 2 ^ 32
      → All (IsWorker max_size) ws
      → (steal_from blank moved (length ws) r ws).0 ≡ none
      → (j : ℕ) → j < length ws
      → Idle ws j
  All-Idle r ws lt few all h j hj =
      let n = length ws in
      let k = (j + n - r) % n in
      let pos : 0 < n = omega arith in
      rw (end_slot n r j lt hj) at
        (steal_from-none n r ws pos (omega arith) all h k (mod-lt (j + n - r) pos))

  module _ (weigh : A → ℕ) where
    workers-empty :
        (ws : List (JobWorker A))
        → ((j : ℕ) → j < length ws → Idle ws j)
        → total (worker_weight blank weigh) ws ≡ 0
    workers-empty ws idle =
        total-eq-zero (worker_weight blank weigh) ws (no_worker blank)
          λ j lt. ap (total weigh) (idle j lt)

    -- `find_new_work` comes back with nothing only if no queue of the pool holds a job.
    find_new_work-none :
        (p : WorkerPool A) (r : ℕ)
        → r < length p.workers
        → IsValid max_size p
        → (find_new_work blank moved p r).0 ≡ none
        → weight blank weigh p ≡ 0
    unfolding find_new_work
    find_new_work-none p r lt v h = elim (Option-cases (dequeue blank moved p.global_queue).0) [
      | inr (job, e) ↦ let hit = rw (e, find_new_work) at h in cc
      | inl e ↦
          let shared = ap (total weigh) (dequeue-idle limit blank moved v.shared e).0 in
          let own =
            workers-empty p.workers
              (All-Idle r p.workers lt v.few v.own (rw (e, find_new_work) at h)) in
          omega (arith, shared, own)
    ]

    -- If a round of a worker of a well-formed pool runs no job, then no queue of the pool, its own, the
    -- global one or another worker's, held a job: idleness means that there was no work.
    pub work-none :
        (p : WorkerPool A) (i r : ℕ)
        → i < length p.workers
        → r < length p.workers
        → IsValid max_size p
        → (work blank moved p i r).0 ≡ none
        → weight blank weigh p ≡ 0
    unfolding work
    work-none p i r hi hr v h =
        let w = get_or p.workers i (no_worker blank) in
        let ok = All-get_or (IsWorker max_size) p.workers i (no_worker blank) hi v.own in
        elim (Option-cases (steal_job blank moved w).0) [
          | inr (job, e) ↦ let hit = rw (e, work) at h in cc
          | inl e ↦
              let same : set p.workers i (steal_job blank moved w).1 ≡ p.workers =
                ap (set p.workers i) (steal_job-none w ok e).1
                ∙ set_self p.workers i (no_worker blank) in
              elim (Option-cases (find_new_work blank moved p r).0) [
                | inl f ↦ find_new_work-none p r hr v f
                | inr (job, f) ↦
                    let same' =
                      ap (λ ws. find_new_work blank moved (record p { workers = ws }) r) same in
                    let g = ap (λ r. r.0) same' ∙ f in let hit = rw (e, work, g) at h in cc
              ]
        ]
