-- ===== src/JobQueue/Put.antt =====
-- The write of `enqueue` once there is room.
use async_ery.Base.{
  ℕ, suc, ◌+◌, ◌-◌, ◌%◌, ◌^◌, ◌<◌, ◌≡◌, ap₂, ◌∙◌, ◌≢◌, [], ◌∷◌, ◌++◌, length, get_or, set,
  length-set, get_or-set_self, get_or-set_ne, add_size, arith,
}
use async_ery.JobQueue.{JobQueue, put}
use async_ery.JobQueue.Slots.{slots, slots_ext, slots-snoc}
use async_ery.JobQueue.Inv.{IsValid, used, contents}
use async_ery.Base.{distance, next_slot, entry_slot, end_slot}

module _ {ℓ} {A : Type ℓ} {max_size : ℕ} (limit : max_size < 2 ^ 63) where
  module _ {q : JobQueue A} (v : IsValid max_size q) where
    -- Slots are numbered far below the wrap-around.
    pub no_wrap : (add_size q.tail 1 ≡ q.tail + 1) × (add_size q.head 1 ≡ q.head + 1)
    no_wrap = omega (arith, v.allocated, v.tail_in, v.head_in)

    pub used-lt : used q < length q.queue
    used-lt = ground (arith, distance (length q.queue) q.head q.tail v.head_in v.tail_in)

    -- One more job, if a slot stays free.
    used-next :
        used q + 1 < length q.queue
        → ((q.tail + 1) % length q.queue + length q.queue - q.head) % length q.queue ≡ used q + 1
    used-next room = ground (
      arith,
      distance (length q.queue) q.head q.tail v.head_in v.tail_in,
      next_slot (length q.queue) q.tail v.tail_in,
      distance (length q.queue) q.head ((q.tail + 1) % length q.queue) v.head_in,
    )

    entry_ne_tail : (i : ℕ) → i < used q → q.tail ≢ (q.head + i) % length q.queue
    entry_ne_tail i lt = ground (
      arith,
      distance (length q.queue) q.head q.tail v.head_in v.tail_in,
      entry_slot (length q.queue) q.head i v.head_in,
    )

    pub put-IsValid : (x : A) → used q + 1 < length q.queue → IsValid max_size (put x q)
    unfolding put
    put-IsValid x room = ground (
      arith,
      length-set q.queue q.tail x,
      no_wrap,
      used-next room,
      next_slot (length q.queue) q.tail v.tail_in,
    )

    pub contents-put :
        (blank x : A)
        → used q + 1 < length q.queue
        → contents blank (put x q) ≡ contents blank q ++ x ∷ []
    unfolding put
    contents-put blank x room =
        let c = length q.queue in
        let written = set q.queue q.tail x in
        let step : used q + 1 ≡ suc (used q) = omega arith in
        let kept : slots blank c written q.head (used q) ≡ contents blank q =
          slots_ext blank c c written q.queue q.head q.head (used q)
            λ i lt. get_or-set_ne q.queue q.tail ((q.head + i) % c) x blank (entry_ne_tail i lt) in
        let last : get_or written ((q.head + used q) % c) blank ≡ x =
          rw (end_slot c q.head q.tail v.head_in v.tail_in)
            (get_or-set_self q.queue q.tail x blank v.tail_in) in
        rw (length-set q.queue q.tail x, no_wrap.0, used-next room, step)
          (slots-snoc blank c written q.head (used q) ∙ ap₂ (λ xs y. xs ++ y ∷ []) kept last)
