-- ===== src/JobQueue/Fifo.antt =====
-- The specification of a queue of jobs: first in, first out, with no bound.
use async_ery.Base.{Option, none, some, List, [], ◌∷◌, ◌++◌}

-- The calls of a client.
pub data Op {ℓ} (A : Type ℓ) : Type ℓ where
  put : A → Op A
  get : Op A

unfoldable pub pop {ℓ} : {A : Type ℓ} → List A → Option A × List A
pop [] = (none, [])
pop (x ∷ xs) = (some x, xs)

-- What the calls of `get` return, in order.
unfoldable pub run {ℓ} : {A : Type ℓ} → List A → List (Op A) → List (Option A)
unfolding pop
run xs [] = []
run xs (put x ∷ ops) = run (xs ++ x ∷ []) ops
run xs (get ∷ ops) = let (job, rest) = pop xs in job ∷ run rest ops
