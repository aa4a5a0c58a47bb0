-- ===== src/JobQueue/Run.antt =====
-- Whole histories of calls against the first-in-first-out specification.
use async_ery.Base.{
  ℕ, suc, ◌+◌, ◌-◌, ◌*◌, ◌^◌, ◌%◌, ◌≤◌, ◌<◌, ◌≡◌, refl, ap, inl, inr, Option, none, some, List, [],
  ◌∷◌, length, length-append, length-replicate, arith,
}
use mathlib.Core.Option
use native.Mathlib.Nat.{mod_self as mod-self}
use async_ery.JobQueue.{JobQueue, make, enqueue, dequeue}
use async_ery.JobQueue.Fifo
use async_ery.JobQueue.Fifo.{Op, put, get}
use async_ery.JobQueue.Inv.{IsValid, used, contents}
use async_ery.JobQueue.Dequeue.{dequeue_refines, dequeue-IsValid}
use async_ery.JobQueue.Enqueue.{enqueue_lem}

-- A new queue is well formed and empty.
pub make-IsValid {ℓ} :
    {A : Type ℓ} (max_size : ℕ) (blank : A) (base_size : ℕ)
    → 0 < base_size
    → base_size ≤ max_size
    → IsValid max_size (make blank base_size) × (contents blank (make blank base_size) ≡ [])
unfolding make
make-IsValid max_size blank base_size pos fits =
    let len = length-replicate base_size blank in
    let start : (0 + base_size - 0) % base_size ≡ 0 =
      let e : 0 + base_size - 0 ≡ base_size = omega arith in rw e (mod-self base_size) in
    let empty : used (make blank base_size) ≡ 0 = rw len start in
    (omega (arith, len, empty), rw empty)

module _ {ℓ} {A : Type ℓ} (max_size : ℕ) (blank : A) (moved : A → A) where
  -- The calls in order, with what each `dequeue` returns; `none` once a call has thrown.
  pub run : JobQueue A → List (Op A) → Option (List (Option A))
  run q [] = some []
  run q (put x ∷ ops) = elim (enqueue blank moved max_size q x) [ none ↦ none | some r ↦ run r ops ]
  run q (get ∷ ops) =
      let (job, r) = dequeue blank moved q in Option.map (λ replies. job ∷ replies) (run r ops)

-- The number of jobs that a history puts in.
abbrev pub puts {ℓ} : {A : Type ℓ} → List (Op A) → ℕ
puts [] = 0
puts (put x ∷ ops) = suc (puts ops)
puts (get ∷ ops) = puts ops

length-pop {ℓ} : {A : Type ℓ} (xs : List A) → length (Fifo.pop xs).1 ≤ length xs
unfolding Fifo.pop
length-pop [] = omega arith
length-pop (x ∷ xs) = omega arith

module _ {ℓ} {A : Type ℓ} {max_size : ℕ} (limit : max_size < 2 ^ 63) (blank : A)
    (moved : A → A) where
  -- From a well-formed queue, while the jobs fit into half of what a vector may hold, no history of
  -- calls throws, and each `dequeue` returns what an unbounded first-in-first-out queue returns.
  pub run_refines :
      (ops : List (Op A)) {q : JobQueue A}
      → IsValid max_size q
      → (length (contents blank q) + puts ops) * 2 ≤ max_size
      → run max_size blank moved q ops ≡ some (Fifo.run (contents blank q) ops)
  unfolding run Fifo.run
  run_refines [] v fits = refl
  run_refines (put x ∷ ops) {q} v fits = elim (enqueue_lem limit blank moved v x) [
    | inl (r, e) ↦
        rw (e.0, run, ← e.2)
          (run_refines ops e.1
            (omega (arith, ap length e.2, length-append (contents blank q) (x ∷ []))))
    | inr e ↦ absurd (omega (arith, e.1, e.2))
  ]
  run_refines (get ∷ ops) {q} v fits =
      let same = dequeue_refines limit blank moved v in
      let fewer = ap (λ r. length r.1) same in
      rw (
        run_refines ops (dequeue-IsValid limit blank moved v)
            (omega (arith, fewer, length-pop (contents blank q))),
        ← same,
      )
