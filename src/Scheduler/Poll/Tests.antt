-- ===== src/Scheduler/Poll/Tests.antt =====
-- A loop with two poll sources: each poll of a source returns one job, and counts in the world.
use async_ery.Base.{ℕ, ◌+◌, ◌*◌, ◌^◌, ◌<◌, ◌≡◌, true, List, [], ◌∷◌, ℤ, pos, arith}
use async_ery.JobQueue.{JobQueue}
use async_ery.JobQueue.Laws.{contents}
use async_ery.Timing.Wheel.{advance, collect, non_wrapped_wheel_index}
use async_ery.Timing.Wheel.Conserve.{weight}
use async_ery.Scheduler.Pool.{WorkerPool}
use async_ery.Scheduler.Pool.Laws.{IsValid}
use async_ery.Scheduler.Poll.{PollLoop, poll_round}
use async_ery.Scheduler.Poll.Laws.{IsLoop, polled, poll_round_lem}

abbrev limit : 100 < 2 ^ 63
limit = omega arith

abbrev moved_from : ℕ → ℕ
moved_from x = 0

abbrev one : ℕ → ℕ
one x = 1

abbrev poll_one : ℕ → ℕ → List ℕ × ℕ
poll_one source world = ((source + 10 * world) ∷ [], world + 1)

abbrev every_tick : ℕ → ℤ
every_tick source = pos 10

abbrev bare : JobQueue ℕ
bare = record { queue = 0 ∷ 0 ∷ []; head = 1; tail = 1; current_size = 0 }

abbrev pool : WorkerPool ℕ
pool = record { global_queue = bare; workers = [] }

abbrev pool-IsValid : IsValid 100 pool
pool-IsValid = record { shared = omega arith; own = tt; few = omega arith }

-- Sources 1 and 2 are due at once, after one tick.
abbrev poll_loop : PollLoop ℕ ℕ
poll_loop = record {
  poll_scheduler = record {
    wheel = (1 ∷ 2 ∷ []) ∷ [] ∷ [] ∷ [];
    wheel_tick_size = 10;
    last_advancement_time = 0;
    num_ticks = 3;
    current_wheel_index = 0;
  };
  world = 4;
  worker_pool = pool;
}

abbrev poll_loop-IsLoop : IsLoop 100 poll_loop
poll_loop-IsLoop = record { wheel = omega arith; pool = pool-IsValid }

abbrev ready : List ℕ
ready = (advance poll_loop.poll_scheduler 12).0

poll_round_lem_example :
    let result = poll_round poll_one every_tick 0 moved_from 100 poll_loop 12 in
    (result.0 ≡ true)
    × IsLoop 100 result.1
    × (weight one result.1.poll_scheduler ≡ 2)
    × (result.1.world ≡ 6)
    × (contents 0 result.1.worker_pool.global_queue ≡ 41 ∷ 52 ∷ [])
    × (result.1.worker_pool.workers ≡ poll_loop.worker_pool.workers)
unfolding advance collect non_wrapped_wheel_index polled
poll_round_lem_example =
    poll_round_lem limit 0 moved_from poll_one every_tick one poll_loop 12 poll_loop-IsLoop
      (omega arith)
