-- ===== src/Scheduler/System/Tests.antt =====
-- A scheduler with two workers and one poll source, whose jobs are the numbers of its polls.
use async_ery.Base.{
  Bool, ℕ, ◌+◌, ◌*◌, ◌^◌, ◌<◌, ◌≡◌, refl, true, List, [], ◌∷◌, total, ℤ, pos, arith,
}
use async_ery.JobQueue.{put, is_full, enqueue, dequeue, dequeue_locked, size}
use async_ery.JobQueue
use async_ery.Timing.Wheel
use async_ery.Timing.Wheel.{advance, collect, non_wrapped_wheel_index}
use async_ery.Scheduler.Context.{Context, empty, of_worker}
use async_ery.Scheduler.Worker
use async_ery.Scheduler.Worker.{start, steal_job, enqueue_all}
use async_ery.Scheduler.Pool
use async_ery.Scheduler.Pool.{create_workers, steal_from, find_new_work, work, queue_at}
use async_ery.Scheduler.Pool.Laws.{weight}
use async_ery.Scheduler.Poll.{
  schedule_poll_source, schedule_all, begin_poll, poll_ready, poll_round,
}
use async_ery.Scheduler.Poll.Laws.{polled}
use async_ery.Scheduler.System.{
  Scheduler, Event, queues, polls, stops, works, make, queue, queue_job, poll_at, apply, run,
}
use async_ery.Scheduler.System.Laws.{AllHaveRoom, brought, scheduler_lem}

abbrev limit : 5000 < 2 ^ 63
limit = omega arith

abbrev moved_from : ℕ → ℕ
moved_from x = 0

abbrev same : ℕ → ℕ
same x = x

abbrev poll_one : ℕ → ℕ → List ℕ × ℕ
poll_one source world = ((source + 10 * world) ∷ [], world + 1)

abbrev every_tick : ℕ → ℤ
every_tick source = pos 10

abbrev scheduler : Scheduler ℕ ℕ
scheduler = make 0 2 4 (1 ∷ [])

-- Worker 0 runs a job of the global queue and that of the poll source, and worker 1 one of its own two.
abbrev events : List (Event ℕ)
events =
    queues empty (7 ∷ [])
    ∷ polls 0
    ∷ queues (of_worker 1) (8 ∷ 9 ∷ [])
    ∷ polls 15
    ∷ works 0 1
    ∷ works 0 1
    ∷ stops
    ∷ works 1 0
    ∷ []

abbrev after : Bool × List (ℕ × Context) × Scheduler ℕ ℕ
after = run 0 poll_one every_tick moved_from 5000 1 scheduler events

events_room :
    AllHaveRoom limit 0 moved_from poll_one every_tick 1 scheduler events
    × (brought limit 0 moved_from poll_one every_tick 1 scheduler events ≡ 7 ∷ 8 ∷ 9 ∷ 41 ∷ [])
    × (after.1 ≡ (7, of_worker 0) ∷ (41, of_worker 0) ∷ (8, of_worker 1) ∷ [])
unfolding make run apply poll_at queue Pool.make create_workers steal_from find_new_work work
    queue_at Pool.queue schedule_poll_source schedule_all begin_poll poll_ready poll_round
    Wheel.make Wheel.schedule advance collect non_wrapped_wheel_index JobQueue.make put is_full
    enqueue dequeue dequeue_locked size Worker.make start steal_job enqueue_all Worker.queue polled
events_room = (
  (
    omega arith,
    (
      omega arith,
      (
        (omega arith, omega arith),
        (omega arith, (omega arith, (omega arith, (tt, (omega arith, tt))))),
      ),
    ),
  ),
  refl,
  refl,
)

one_job :
    queue_job 0 poll_one every_tick moved_from 5000 1 scheduler empty 7
    ≡ queue 0 poll_one every_tick moved_from 5000 1 scheduler empty (7 ∷ [])
unfolding queue_job
one_job = refl

scheduler_lem_example :
    (after.0 ≡ true)
    × (total (λ r. r.0) after.1 + weight 0 same after.2.worker_pool
        ≡ total same (brought limit 0 moved_from poll_one every_tick 1 scheduler events))
scheduler_lem_example =
    scheduler_lem limit 0 moved_from poll_one every_tick 1 (omega arith) same 2 4 (1 ∷ []) events
      (omega arith) (omega arith) events_room.0
