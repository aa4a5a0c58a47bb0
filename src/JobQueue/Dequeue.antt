-- ===== src/JobQueue/Dequeue.antt =====
-- `dequeue` against the first-in-first-out specification.
use native.Mathlib.Nat.{mod-add-mod}
use async_ery.Base.{
  ℕ, suc, ◌+◌, ◌-◌, ◌%◌, ◌^◌, ◌<◌, ◌≡◌, refl, sym, ap, ◌≢◌, inl, inr, none, [], ◌∷◌, length, get_or,
  set, length-set, get_or-set_ne, ◌==◌, Bool-cases, true, false, mod_below, arith,
}
use async_ery.JobQueue.{JobQueue, dequeue_locked, dequeue, size}
use async_ery.JobQueue.Fifo.{pop}
use async_ery.JobQueue.Slots.{slots, slots_ext}
use async_ery.JobQueue.Inv.{IsValid, used, contents}
use async_ery.Base.{distance, next_slot, entry_slot}
use async_ery.JobQueue.Put.{no_wrap}

module _ {ℓ} {A : Type ℓ} {max_size : ℕ} (limit : max_size < 2 ^ 63) (blank : A)
    (moved : A → A) where
  module _ {q : JobQueue A} (v : IsValid max_size q) where
    -- The slot that `dequeue` leaves is not among the later ones.
    entry_ne_head : (i : ℕ) → 0 < i → i < used q → q.head ≢ (q.head + i) % length q.queue
    entry_ne_head i pos lt = ground (
      arith,
      distance (length q.queue) q.head q.tail v.head_in v.tail_in,
      entry_slot (length q.queue) q.head i v.head_in,
    )

    used-drop :
        q.head ≢ q.tail
        → (q.tail + length q.queue - (q.head + 1) % length q.queue) % length q.queue + 1 ≡ used q
    used-drop ne = ground (
      arith,
      distance (length q.queue) q.head q.tail v.head_in v.tail_in,
      next_slot (length q.queue) q.head v.head_in,
      distance (length q.queue) ((q.head + 1) % length q.queue) q.tail,
    )

    used-eq-zero : (q.head ≡ q.tail → used q ≡ 0) × (used q ≡ 0 → q.head ≡ q.tail)
    used-eq-zero = (
      (λ e. ground (arith, distance (length q.queue) q.head q.tail v.head_in v.tail_in)),
      (λ e. ground (arith, distance (length q.queue) q.head q.tail v.head_in v.tail_in)),
    )

    idle_head-tail : (q.current_size == 0) ≡ true → (q.head == q.tail) ≡ true
    idle_head-tail idle = ground (arith, v.counted, used-eq-zero.1)

    -- The check before the lock changes nothing for a thread that runs alone.
    dequeue-dequeue_locked : dequeue blank moved q ≡ dequeue_locked blank moved q
    unfolding dequeue dequeue_locked size
    dequeue-dequeue_locked = elim (Bool-cases (q.current_size == 0)) [
      | inl idle ↦ let same : (q.head == q.tail) ≡ true = idle_head-tail idle in rw (idle, same)
      | inr busy ↦ rw busy
    ]

    -- The job at the head, and the rest, as `contents` lists them.
    contents-head :
        (x : A)
        → q.head ≢ q.tail
        → contents blank q
          ≡ get_or q.queue q.head blank
            ∷ slots blank
                (length q.queue)
                (set q.queue q.head x)
                ((q.head + 1) % length q.queue)
                ((q.tail + length q.queue - (q.head + 1) % length q.queue) % length q.queue)
    contents-head x ne =
        let c = length q.queue in
        let n = (q.tail + c - (q.head + 1) % c) % c in
        let step : used q ≡ suc n = omega (arith, used-drop ne) in
        let first : q.head % c ≡ q.head = mod_below q.head c v.head_in in
        let rest : slots blank c q.queue (q.head + 1) n
            ≡ slots blank c (set q.queue q.head x) ((q.head + 1) % c) n =
          slots_ext blank c c q.queue (set q.queue q.head x) (q.head + 1) ((q.head + 1) % c) n
            λ i lt. rw mod-add-mod (
              sym (
                get_or-set_ne q.queue q.head ((q.head + 1 + i) % c) x blank (
                  let e : q.head + 1 + i ≡ q.head + (1 + i) = omega arith in
                  rw e (entry_ne_head (1 + i) (omega arith) (omega arith))))) in
        rw (step, first) (ap (λ xs. get_or q.queue q.head blank ∷ xs) rest)

    head-ne-tail : (q.head == q.tail) ≡ false → q.head ≢ q.tail
    head-ne-tail h = ground arith

    contents-empty : (q.head == q.tail) ≡ true → contents blank q ≡ []
    contents-empty h = let e : used q ≡ 0 = used-eq-zero.0 (ground arith) in rw e

    -- In a well-formed queue `dequeue` returns the oldest job and leaves the others in their order, or
    -- finds no job if there is none.
    pub dequeue_refines :
        let (job, q') = dequeue blank moved q in (job, contents blank q') ≡ pop (contents blank q)
    unfolding dequeue_locked pop
    dequeue_refines = rw dequeue-dequeue_locked (elim (Bool-cases (q.head == q.tail)) [
      | inl idle ↦ rw (idle, contents-empty idle)
      | inr busy ↦
          rw (busy, contents-head (moved (get_or q.queue q.head blank)) (head-ne-tail busy))
            (rw (
              length-set q.queue q.head (moved (get_or q.queue q.head blank)),
              (no_wrap limit v).1,
            ))
    ])

    pub dequeue-IsValid : IsValid max_size (dequeue blank moved q).1
    unfolding dequeue_locked
    dequeue-IsValid = rw dequeue-dequeue_locked (elim (Bool-cases (q.head == q.tail)) [
      | inl idle ↦ rw idle v
      | inr busy ↦ rw busy (
          ground (
            arith,
            length-set q.queue q.head (moved (get_or q.queue q.head blank)),
            no_wrap limit v,
            used-drop (head-ne-tail busy),
            next_slot (length q.queue) q.head v.head_in,
          ))
    ])

-- A `dequeue` that finds nothing leaves the queue as it was.
pub dequeue-none {ℓ} :
    {A : Type ℓ} (blank : A) (moved : A → A) (q : JobQueue A)
    → (dequeue blank moved q).0 ≡ none
    → (dequeue blank moved q).1 ≡ q
unfolding dequeue dequeue_locked size
dequeue-none blank moved q = elim (Bool-cases (q.current_size == 0)) [
  | inl idle ↦ rw idle (λ h. refl)
  | inr busy ↦ elim (Bool-cases (q.head == q.tail)) [
    | inl empty ↦ rw (busy, empty) (λ h. refl)
    | inr some_job ↦ rw (busy, some_job) (λ h. cc)
  ]
]
