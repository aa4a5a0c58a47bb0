-- ===== src/JobQueue/Tests.antt =====
-- The queue at concrete inputs: a ring of three slots whose jobs go round its end.
use async_ery.Base.{ℕ, ◌^◌, ◌<◌, ◌≡◌, refl, ◌⊎◌, Option, none, some, List, [], ◌∷◌, arith}
use async_ery.JobQueue.{
  JobQueue, make, move_construct, move_assign, size, dequeue_locked, dequeue, enqueue,
  put as put_item, is_full, resize, reposition,
}
use async_ery.JobQueue.Fifo.{Op, put, get}
use async_ery.JobQueue.Fifo
use async_ery.JobQueue.Inv.{IsValid, contents}
use async_ery.JobQueue.Dequeue.{dequeue_refines}
use async_ery.JobQueue.Enqueue.{enqueue_lem, Enqueued, Refused}
use async_ery.JobQueue.Run.{run, run_refines}

abbrev limit : 100 < 2 ^ 63
limit = omega arith

abbrev moved_from : ℕ → ℕ
moved_from x = 0

-- 4, then 5
abbrev wrapped : JobQueue ℕ
wrapped = record { queue = 5 ∷ 0 ∷ 4 ∷ []; head = 2; tail = 1; current_size = 2 }

abbrev wrapped-IsValid : IsValid 100 wrapped
wrapped-IsValid = omega arith

-- The ring is full at the first call.
abbrev script : List (Op ℕ)
script = put 6 ∷ get ∷ put 7 ∷ get ∷ get ∷ get ∷ get ∷ []

resize-wrapped :
    enqueue 0 moved_from 100 wrapped 6
    ≡ some (record { queue = 0 ∷ 0 ∷ 4 ∷ 5 ∷ 6 ∷ 0 ∷ []; head = 2; tail = 5; current_size = 3 })
unfolding enqueue put_item is_full resize reposition
resize-wrapped = refl

refused : enqueue 0 moved_from 5 wrapped 6 ≡ none
unfolding enqueue put_item is_full resize reposition
refused = refl

run_refines_example :
    run 100 0 moved_from wrapped script ≡ some (some 4 ∷ some 5 ∷ some 6 ∷ some 7 ∷ none ∷ [])
unfolding Fifo.run
run_refines_example = run_refines limit 0 moved_from script wrapped-IsValid (omega arith)

enqueue_lem_example :
    ((r : JobQueue ℕ) × Enqueued limit 0 moved_from wrapped-IsValid 6 r)
    ⊎ Refused limit 0 moved_from wrapped-IsValid 6
enqueue_lem_example = enqueue_lem limit 0 moved_from wrapped-IsValid 6

dequeue_refines_example :
    let (job, q) = dequeue 0 moved_from wrapped in
    ◌≡◌ {A = Option ℕ × List ℕ} (job, contents 0 q) (some 4, 5 ∷ [])
unfolding Fifo.pop
dequeue_refines_example = dequeue_refines limit 0 moved_from wrapped-IsValid

abbrev fresh : JobQueue ℕ
fresh = make 0 8

-- The queue that is moved to gives the jobs of the other one, which may not be used again.
move_construct-wrapped :
    (contents 0 (move_construct wrapped).0 ≡ 4 ∷ 5 ∷ [])
    × ((dequeue 0 moved_from (move_construct wrapped).0).0 ≡ some 4)
    × (IsValid 100 (move_construct wrapped).1 → ⊥)
    × ((move_assign [] (make 0 3) wrapped).0 ≡ wrapped)
unfolding move_construct move_assign make dequeue dequeue_locked size
move_construct-wrapped = (refl, refl, λ v. absurd (omega (arith, v.head_in)), refl)
