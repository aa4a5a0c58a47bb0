-- ===== src/Io/PollSource/History.antt =====
-- Histories of calls on the poll source of the reads, while the system goes on.
use async_ery.Base.{ℕ, ◌+◌, ◌≡◌, List, [], ◌∷◌, ◌++◌, ap, total, total-append, arith}
use async_ery.Io.Request.{ReadRequest}
use async_ery.Io.Aio.{AioLibrary}
use async_ery.Io.PollSource.{Waiting, PollSource, poll, queue_read}
use async_ery.Io.PollSource.Laws.{done, keep-total, poll_lem}

-- The calls, in the order in which they get the lock; in between, the system completes requests.
pub data Op (System Callback : Type 0) : Type 0 where
  reads : ℕ → ReadRequest → Callback → Op System Callback
  polls : Op System Callback
  proceeds : (System → System) → Op System Callback

module _ {System Callback : Type 0} (lib : AioLibrary System) where
  -- The jobs that the polls return, and the source at the end.
  pub run :
      PollSource Callback
      → System
      → List (Op System Callback)
      → List (Waiting Callback) × PollSource Callback
  run s sys [] = ([], s)
  run s sys (reads fileno request callback ∷ ops) =
      let (s', sys') = queue_read lib s sys fileno request callback in run s' sys' ops
  run s sys (polls ∷ ops) =
      let (jobs, s') = poll lib s sys in let (later, s'') = run s' sys ops in (jobs ++ later, s'')
  run s sys (proceeds change ∷ ops) = run s (change sys) ops

  module _ (p : Callback → ℕ) where
    -- The callbacks of jobs or of requests in flight.
    abbrev pub callbacks_weight : List (Waiting Callback) → ℕ
    callbacks_weight ws = total (λ w. p w.callback) ws

    abbrev pub given_weight : List (Op System Callback) → ℕ
    given_weight [] = 0
    given_weight (reads fileno request callback ∷ ops) = p callback + given_weight ops
    given_weight (polls ∷ ops) = given_weight ops
    given_weight (proceeds change ∷ ops) = given_weight ops

    -- Whatever reads are queued and whenever the source is polled, and whatever the system does in
    -- between, the callbacks of the jobs that the polls returned and of the requests that are still in
    -- flight are those that were there and those that were queued, each once.
    pub reads_lem :
        (ops : List (Op System Callback)) (s : PollSource Callback) (sys : System)
        → let (jobs, s') = run s sys ops in
          callbacks_weight jobs + callbacks_weight s'.in_flight_requests
          ≡ callbacks_weight s.in_flight_requests + given_weight ops
    unfolding run queue_read
    reads_lem [] s sys = omega arith
    reads_lem (reads fileno request callback ∷ ops) s sys =
        let next = queue_read lib s sys fileno request callback in
        let rest = reads_lem ops next.0 next.1 in
        omega (arith, rest, total-append (λ w. p w.callback) s.in_flight_requests _)
    reads_lem (polls ∷ ops) s sys =
        let split = poll_lem lib s sys in
        let s' = (poll lib s sys).1 in
        let rest = reads_lem ops s' sys in
        omega (
          arith,
          rest,
          ap callbacks_weight split.0,
          ap callbacks_weight split.1,
          keep-total (λ w. p w.callback) (done lib sys) s.in_flight_requests,
          total-append (λ w. p w.callback) (poll lib s sys).0 (run s' sys ops).0,
        )
    reads_lem (proceeds change ∷ ops) s sys = reads_lem ops s (change sys)
