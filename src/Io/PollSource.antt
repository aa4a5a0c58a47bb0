-- ===== src/Io/PollSource.antt =====
-- src/io/include/io/io_poll_source.h and src/io/src/io_poll_source.cpp. A call is what a thread does
-- while it holds the spin lock.
pub mod Laws
pub mod History
use async_ery.Base.{ℕ, ◌*◌, Bool, true, false, List, [], ◌∷◌, ◌++◌, map, ℤ, pos, if◌then◌else◌}
use async_ery.Io.Request.{ReadRequest}
use async_ery.Io.Aio.{
  AioLibrary, AioResult, InFlightAioRequest, is_completed, result, enqueue_and_start_read,
}

-- A callback with the request that it waits for.
pub record Waiting (Callback : Type 0) : Type 0 where
  pub callback : Callback
  pub request : InFlightAioRequest

pub record PollSource (Callback : Type 0) : Type 0 where
  pub in_flight_requests : List (Waiting Callback)

abbrev pub poll_frequency : ℕ → ℤ
poll_frequency per_ms = pos (5 * per_ms)

module _ {System Callback : Type 0} (lib : AioLibrary System) where
  -- The loop of `poll`: the jobs and the requests that stay.
  pub sort_out :
      System
      → List (Waiting Callback)
      → List (Waiting Callback)
      → List (Waiting Callback)
      → List (Waiting Callback) × List (Waiting Callback)
  sort_out sys [] completed_jobs pending_requests = (completed_jobs, pending_requests)
  sort_out sys (w ∷ ws) completed_jobs pending_requests =
      let done = is_completed lib sys w.request in
      sort_out sys ws (if done then completed_jobs ++ w ∷ [] else completed_jobs)
        (if done then pending_requests else pending_requests ++ w ∷ [])

  -- A job holds its callback and its request; `run_job` is its call.
  pub poll : PollSource Callback → System → List (Waiting Callback) × PollSource Callback
  unfolding sort_out
  poll s sys =
      let (completed_jobs, pending_requests) = sort_out sys s.in_flight_requests [] [] in
      (completed_jobs, record { in_flight_requests = pending_requests })

  -- The result is read when the job runs.
  unfoldable pub run_job : System → Waiting Callback → Callback × AioResult ReadRequest
  run_job sys w = (w.callback, result lib sys w.request)

  pub queue_read :
      PollSource Callback → System → ℕ → ReadRequest → Callback → PollSource Callback × System
  queue_read s sys fileno request callback =
      let (in_flight_request, sys') = enqueue_and_start_read lib sys fileno request in
      (
        record {
          in_flight_requests =
              s.in_flight_requests
              ++ record { callback = callback; request = in_flight_request } ∷ [];
        },
        sys',
      )
