-- ===== src/JobQueue.antt =====
-- src/scheduler/include/scheduler/job_queue.h and src/scheduler/src/job_queue.cpp.
mod Slots
mod Inv
pub mod Fifo
mod Put
mod Dequeue
mod Resize
mod Enqueue
pub mod Run
pub mod Laws
mod Tests
use async_ery.Base.{
  [], ℕ, zero, suc, ◌-◌, ◌%◌, Bool, Option, none, some, List, ◌++◌, length, get_or, set, take,
  replicate, ltb, ◌==◌, if◌then◌else◌, add_size, sub_size, mul_size,
}
use mathlib.Core.Option

-- The fields of the class; the lock is Concurrency.SpinLock, and a call here is what a thread does
-- while it holds it.
pub record JobQueue {ℓ} (A : Type ℓ) : Type ℓ where
  pub queue : List A
  pub head : ℕ
  pub tail : ℕ
  pub current_size : ℕ

abbrev pub default_size : ℕ
default_size = 1024

-- `std::vector::resize`: cut off, or filled up with default values.
abbrev pub vector_resize {ℓ} : {A : Type ℓ} → A → ℕ → List A → List A
vector_resize blank n xs = take n xs ++ replicate (n - length xs) blank

unfoldable pub size {ℓ} : {A : Type ℓ} → JobQueue A → ℕ
size q = q.current_size

-- The constructor from a size; `blank` is the default-constructed job.
unfoldable pub make {ℓ} : {A : Type ℓ} → A → ℕ → JobQueue A
make blank base_size = record {
  queue = replicate base_size blank;
  head = 0;
  tail = 0;
  current_size = 0;
}

-- The rest of `enqueue`, once there is room.
unfoldable pub put {ℓ} : {A : Type ℓ} → A → JobQueue A → JobQueue A
put item q = record q {
  queue = set q.queue q.tail item;
  tail = add_size q.tail 1 % length q.queue;
  current_size = add_size q.current_size 1;
}

unfoldable pub is_full {ℓ} : {A : Type ℓ} → JobQueue A → Bool
is_full q = add_size q.tail 1 % length q.queue == q.head

-- The move constructor: the new queue and what is left of the other one, whose vector is empty then.
unfoldable pub move_construct {ℓ} : {A : Type ℓ} → JobQueue A → JobQueue A × JobQueue A
move_construct other = (
  record {
    queue = other.queue;
    head = other.head;
    tail = other.tail;
    current_size = other.current_size;
  },
  record other { queue = [] },
)

-- The move assignment; `left` is what the vector's own leaves in the other one.
unfoldable pub move_assign {ℓ} :
    {A : Type ℓ} → List A → JobQueue A → JobQueue A → JobQueue A × JobQueue A
move_assign left q other = (
  record q {
    queue = other.queue;
    head = other.head;
    tail = other.tail;
    current_size = other.current_size;
  },
  record other { queue = left },
)

-- `moved` is what a move leaves in a slot, which the language does not specify.
module _ {ℓ} {A : Type ℓ} (blank : A) (moved : A → A) where
  -- `queue[to] = std::move(queue[from])`
  abbrev pub move_slot : List A → ℕ → ℕ → List A
  move_slot xs to from = let v = get_or xs from blank in set (set xs to v) from (moved v)

  -- The loop of `resize`: the fuel bounds its rounds, and `old_size` rounds are enough.
  pub reposition : ℕ → ℕ → ℕ → ℕ → List A → ℕ → ℕ → List A × ℕ
  reposition zero old_size new_size tail xs entry new_tail = (xs, new_tail)
  reposition (suc fuel) old_size new_size tail xs entry new_tail =
      let next =
        reposition fuel old_size new_size tail
          (if entry % old_size == entry % new_size
            then xs
            else move_slot xs (entry % new_size) (entry % old_size))
          (add_size entry 1) (add_size new_tail 1) in
      if entry % old_size == tail then (xs, new_tail) else next

  -- `dequeue` behind its lock.
  unfoldable pub dequeue_locked : JobQueue A → Option A × JobQueue A
  dequeue_locked q = if q.head == q.tail then (none, q) else (
    some (get_or q.queue q.head blank),
    record q {
      queue = set q.queue q.head (moved (get_or q.queue q.head blank));
      head = add_size q.head 1 % length q.queue;
      current_size = sub_size q.current_size 1;
    },
  )

  unfoldable pub dequeue : JobQueue A → Option A × JobQueue A
  unfolding size
  dequeue q = if size q == 0 then (none, q) else dequeue_locked q

  -- `max_size` is the limit at which `std::vector::resize` throws.
  module _ (max_size : ℕ) where
    -- `none`: `std::length_error`, thrown by the vector before anything has changed.
    pub resize : JobQueue A → Option (JobQueue A)
    resize q =
        let old_size = length q.queue in
        let new_size = mul_size old_size 2 in
        let grown = vector_resize blank new_size q.queue in
        let (queue', new_tail) = reposition old_size old_size new_size q.tail grown q.head q.head in
        if ltb max_size new_size
        then none
        else some (record q { queue = queue'; tail = new_tail % new_size })

    -- `none`: the exception of `resize`, with the queue as it was.
    unfoldable pub enqueue : JobQueue A → A → Option (JobQueue A)
    enqueue q item = Option.map (put item) (if is_full q then resize q else some q)
