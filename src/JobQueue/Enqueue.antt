-- ===== src/JobQueue/Enqueue.antt =====
-- `enqueue` as a whole: a ring with room, one that grows, and one that cannot.
use async_ery.Base.{
  ℕ, ◌+◌, ◌-◌, ◌*◌, ◌%◌, ◌^◌, ◌≤◌, ◌<◌, ◌≡◌, ap, ◌∙◌, ◌≢◌, ◌⊎◌, inl, inr, none, some, List, [], ◌∷◌,
  ◌++◌, length, get_or, take, replicate, length-append, length-take, length-replicate, take_all,
  get_or-append_left, ltb, Bool-cases, true, false, mul_size, mod_below, arith, dec_le,
}
use async_ery.JobQueue.{JobQueue, vector_resize, is_full, put, reposition, resize, enqueue}
use async_ery.JobQueue.Slots.{slots_ext, length-slots}
use async_ery.JobQueue.Inv.{IsValid, used, contents}
use async_ery.Base.{distance, next_slot, entry_slot, end_slot}
use async_ery.JobQueue.Put.{no_wrap, used-lt, put-IsValid, contents-put}
use async_ery.JobQueue.Resize.{Placed, reposition_lem}

module _ {ℓ} {A : Type ℓ} (blank : A) where
  length-vector_resize :
      (n : ℕ) (xs : List A) → length xs ≤ n → length (vector_resize blank n xs) ≡ n
  length-vector_resize n xs h = omega (
    arith,
    length-append (take n xs) (replicate (n - length xs) blank),
    length-take n xs,
    length-replicate (n - length xs) blank,
  )

  get_or-vector_resize :
      (n : ℕ) (xs : List A) (i : ℕ)
      → length xs ≤ n
      → i < length xs
      → get_or (vector_resize blank n xs) i blank ≡ get_or xs i blank
  get_or-vector_resize n xs i h lt =
      rw (take_all n xs h) (get_or-append_left xs (replicate (n - length xs) blank) i blank lt)

module _ {ℓ} {A : Type ℓ} {max_size : ℕ} (limit : max_size < 2 ^ 63) (blank : A)
    (moved : A → A) where
  module _ {q : JobQueue A} (v : IsValid max_size q) where
    abbrev grown : List A
    grown = vector_resize blank (length q.queue * 2) q.queue

    abbrev job : ℕ → A
    job i = get_or q.queue ((q.head + i) % length q.queue) blank

    start :
        Placed blank moved (length q.queue) q.head (used q) v.head_in (used-lt limit v) job 0 grown
    start = record {
      room = length-vector_resize blank (length q.queue * 2) q.queue (omega arith);
      done = λ i lt. absurd (omega arith);
      todo = λ i _ lt.
          get_or-vector_resize blank (length q.queue * 2) q.queue _ (omega arith)
            (omega (arith, v.head_in));
    }

    within : (i : ℕ) → i < used q → (q.head + i) % length q.queue ≢ q.tail
    within i lt = ground (
      arith,
      distance (length q.queue) q.head q.tail v.head_in v.tail_in,
      entry_slot (length q.queue) q.head i v.head_in,
    )

    abbrev placed : List A × ℕ
    placed =
        reposition blank moved (length q.queue) (length q.queue) (length q.queue * 2) q.tail grown
          q.head q.head

    placed_lem :
        Placed blank moved
          (length q.queue)
          q.head
          (used q)
          v.head_in
          (used-lt limit v)
          job
          (used q)
          placed.0
        × (placed.1 ≡ q.head + used q)
    placed_lem =
        let e : q.head + 0 ≡ q.head = omega arith in
        rw e at (
          reposition_lem blank moved (length q.queue) q.head (used q) v.head_in (used-lt limit v)
            job (omega (arith, v.allocated)) q.tail
            (end_slot (length q.queue) q.head q.tail v.head_in v.tail_in) within (length q.queue) 0
            grown start (omega arith) (omega (arith, used-lt limit v)))

    abbrev larger : JobQueue A
    larger = record q { queue = placed.0; tail = placed.1 % (length q.queue * 2) }

    no_wrap_size : mul_size (length q.queue) 2 ≡ length q.queue * 2
    no_wrap_size = omega (arith, v.allocated)

    resize-throws : max_size < length q.queue * 2 → resize blank moved max_size q ≡ none
    unfolding resize
    resize-throws h =
        let over : ltb max_size (length q.queue * 2) ≡ true = ground arith in
        rw (no_wrap_size, over)

    resize-grows : length q.queue * 2 ≤ max_size → resize blank moved max_size q ≡ some larger
    unfolding resize
    resize-grows h =
        let fits : ltb max_size (length q.queue * 2) ≡ false = ground arith in
        rw (no_wrap_size, fits)

    larger-sizes :
        (length larger.queue ≡ length q.queue * 2)
        × (larger.tail ≡ q.head + used q)
        × (used larger ≡ used q)
    larger-sizes = ground (
      arith,
      placed_lem.0.room,
      placed_lem.1,
      used-lt limit v,
      mod_below (q.head + used q) (length q.queue * 2),
      distance (length q.queue * 2) q.head (q.head + used q),
    )

    contents-larger : contents blank larger ≡ contents blank q
    contents-larger =
        rw (larger-sizes.2, larger-sizes.0)
          (slots_ext blank (length q.queue * 2) (length q.queue) placed.0 q.queue q.head q.head
            (used q) placed_lem.0.done)

    larger-IsValid : length q.queue * 2 ≤ max_size → IsValid max_size larger
    larger-IsValid h = ground (arith, larger-sizes, used-lt limit v, v.counted)

    full_used : is_full q ≡ true → used q + 1 ≡ length q.queue
    unfolding is_full
    full_used h = ground (
      arith,
      no_wrap limit v,
      distance (length q.queue) q.head q.tail v.head_in v.tail_in,
      next_slot (length q.queue) q.tail v.tail_in,
    )

    free_used : is_full q ≡ false → used q + 1 < length q.queue
    unfolding is_full
    free_used h = ground (
      arith,
      no_wrap limit v,
      distance (length q.queue) q.head q.tail v.head_in v.tail_in,
      next_slot (length q.queue) q.tail v.tail_in,
    )

    -- The queue after the job was taken in: there was room for it, or the vector may be doubled.
    abbrev pub Enqueued : A → JobQueue A → Type ℓ
    Enqueued x r =
        (enqueue blank moved max_size q x ≡ some r)
        × IsValid max_size r
        × (contents blank r ≡ contents blank q ++ x ∷ [])
        × ((length (contents blank q) + 1 < length q.queue) ⊎ (length q.queue * 2 ≤ max_size))

    -- The queue was full and could not be doubled.
    abbrev pub Refused : A → Type ℓ
    Refused x =
        (enqueue blank moved max_size q x ≡ none)
        × (length (contents blank q) + 1 ≡ length q.queue)
        × (max_size < length q.queue * 2)

    enqueue-grows :
        (x : A) → is_full q ≡ true → length q.queue * 2 ≤ max_size → Enqueued x (put x larger)
    unfolding enqueue
    enqueue-grows x full h =
        let room : used larger + 1 < length larger.queue =
          omega (arith, larger-sizes, full_used full, v.head_in) in
        (
          rw (full, resize-grows h),
          put-IsValid limit (larger-IsValid h) x room,
          contents-put limit (larger-IsValid h) blank x room
              ∙ ap (λ xs. xs ++ x ∷ []) contents-larger,
          inr h,
        )

    -- In a well-formed queue `enqueue` appends the job and keeps the queue well formed, if the ring has
    -- room or the vector may hold twice its length, and throws if it has neither.
    pub enqueue_lem : (x : A) → ((r : JobQueue A) × Enqueued x r) ⊎ Refused x
    unfolding enqueue
    enqueue_lem x = elim (Bool-cases (is_full q)) [
      | inl full ↦ elim (dec_le (length q.queue * 2) max_size) [
        | yes h ↦ inl (put x larger, enqueue-grows x full h)
        | no h ↦ inr (
          rw (full, resize-throws (omega arith)),
          omega
              (arith, full_used full, length-slots blank (length q.queue) q.queue q.head (used q)),
          omega arith,
        )
      ]
      | inr free ↦ inl (
        put x q,
        (
          rw free,
          put-IsValid limit v x (free_used free),
          contents-put limit v blank x (free_used free),
          inl (
              omega (
                arith,
                free_used free,
                length-slots blank (length q.queue) q.queue q.head (used q),
              )),
        ),
      )
    ]
