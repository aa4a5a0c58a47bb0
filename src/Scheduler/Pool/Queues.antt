-- ===== src/Scheduler/Pool/Queues.antt =====
-- What the pool needs of one queue: its jobs are counted by weights, `p` of each job.
use async_ery.Base.{
  ℕ, suc, ◌+◌, ◌*◌, ◌^◌, ◌≤◌, ◌<◌, ◌≡◌, refl, sym, ap, ◌∙◌, inl, inr, Option, none, some, List, [],
  ◌∷◌, ◌++◌, append-nil, append_assoc, length, length-append, take, total, true, arith,
}
use async_ery.JobQueue.{JobQueue, dequeue}
use async_ery.JobQueue.Fifo.{pop}
use async_ery.JobQueue.Laws.{IsValid, contents, dequeue_refines, enqueue_lem, dequeue-none}
use async_ery.Scheduler.Worker.{enqueue_all}

abbrev pub found_weight {ℓ} : {A : Type ℓ} → (A → ℕ) → Option A → ℕ
found_weight p none = 0
found_weight p (some x) = p x

pop-total {ℓ} :
    {A : Type ℓ} (p : A → ℕ) (xs : List A)
    → found_weight p (pop xs).0 + total p (pop xs).1 ≡ total p xs
unfolding pop
pop-total p [] = refl
pop-total p (x ∷ xs) = refl

pop-none {ℓ} : {A : Type ℓ} (xs : List A) → (pop xs).0 ≡ none → xs ≡ []
unfolding pop
pop-none [] h = refl
pop-none (x ∷ xs) h = cc

module _ {ℓ} {A : Type ℓ} {max_size : ℕ} (limit : max_size < 2 ^ 63) (blank : A)
    (moved : A → A) where
  module _ {q : JobQueue A} (v : IsValid max_size q) where
    pub dequeue-total :
        (p : A → ℕ)
        → let (job, r) = dequeue blank moved q in
          found_weight p job + total p (contents blank r) ≡ total p (contents blank q)
    dequeue-total p =
        let same = dequeue_refines limit blank moved v in
        let a = ap (λ r. found_weight p r.0 + total p r.1) same in
        a ∙ pop-total p (contents blank q)

    pub dequeue-idle :
        (dequeue blank moved q).0 ≡ none → (contents blank q ≡ []) × ((dequeue blank moved q).1 ≡ q)
    dequeue-idle h =
        let same = ap (λ r. r.0) (dequeue_refines limit blank moved v) in
        (pop-none (contents blank q) (sym same ∙ h), dequeue-none blank moved q h)

  -- The jobs before the one at which the vector throws are queued in their order; with room for
  -- all of them nothing is thrown.
  pub enqueue_all_lem :
      (jobs : List A) {q : JobQueue A}
      → IsValid max_size q
      → let (ok, r) = enqueue_all blank moved max_size q jobs in
        IsValid max_size r
        × ((k : ℕ) × (contents blank r ≡ contents blank q ++ take k jobs))
        × (ok ≡ true → contents blank r ≡ contents blank q ++ jobs)
        × ((length (contents blank q) + length jobs) * 2 ≤ max_size → ok ≡ true)
  unfolding enqueue_all
  enqueue_all_lem [] {q} v = (
    v,
    (0, sym (append-nil (contents blank q))),
    (λ e. sym (append-nil (contents blank q))),
    (λ h. refl),
  )
  enqueue_all_lem (job ∷ jobs) {q} v = elim (enqueue_lem limit blank moved v job) [
    | inl (r, e) ↦
        let rest = enqueue_all_lem jobs e.1 in
        let here = append_assoc (contents blank q) (job ∷ []) in
        rw (e.0, enqueue_all)
          (
            rest.0,
            (
              suc rest.1.0,
              rest.1.1 ∙ ap (λ xs. xs ++ take rest.1.0 jobs) e.2 ∙ here (take rest.1.0 jobs),
            ),
            (λ ok. rest.2 ok ∙ ap (λ xs. xs ++ jobs) e.2 ∙ here jobs),
            (λ h.
                rest.3 (omega (arith, ap length e.2, length-append (contents blank q) (job ∷ [])))),
          )
    | inr e ↦
        rw (e.0, enqueue_all)
          (
            v,
            (0, sym (append-nil (contents blank q))),
            (λ ok. cc),
            (λ h. absurd (omega (arith, e.1, e.2))),
          )
  ]
