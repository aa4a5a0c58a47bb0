-- ===== src/Scheduler/Context.antt =====
-- src/scheduler/include/interface/scheduler/scheduling_context.h: on which worker a job runs.
use async_ery.Base.{ℕ, Option, none, some}

pub record Context : Type 0 where
  pub worker_id : Option ℕ

abbrev pub empty : Context
empty = record { worker_id = none }

abbrev pub of_worker : ℕ → Context
of_worker worker_id = record { worker_id = some worker_id }
