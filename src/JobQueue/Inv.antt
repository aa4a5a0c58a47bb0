-- ===== src/JobQueue/Inv.antt =====
-- When a queue is well formed, and what it holds.
use async_ery.Base.{ℕ, ◌+◌, ◌-◌, ◌%◌, ◌≤◌, ◌<◌, ◌≡◌, List, length}
use async_ery.JobQueue.{JobQueue}
use async_ery.JobQueue.Slots.{slots}

-- How many slots from `head` up to `tail`, going round.
abbrev pub used {ℓ} : {A : Type ℓ} → JobQueue A → ℕ
used q = (q.tail + length q.queue - q.head) % length q.queue

pub record IsValid {ℓ} {A : Type ℓ} (max_size : ℕ) (q : JobQueue A) : Type 0 where
  pub allocated : length q.queue ≤ max_size
  pub head_in : q.head < length q.queue
  pub tail_in : q.tail < length q.queue
  pub counted : q.current_size ≡ used q

-- The jobs, oldest first.
abbrev pub contents {ℓ} : {A : Type ℓ} → A → JobQueue A → List A
contents blank q = slots blank (length q.queue) q.queue q.head (used q)
