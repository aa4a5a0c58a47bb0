-- ===== src/Io/Tests.antt =====
-- Requests under a library of numbers: `aio_error` reads the state at the buffer, and 115, 125 and 17
-- are the codes.
use async_ery.Base.{
  List, ◌+◌, ℕ, zero, suc, ◌≡◌, ◌≢◌, refl, not, [], ◌∷◌, get_or, pos, All, arith, if◌then◌else◌,
  ◌==◌,
}
use async_ery.Io.Request.{Memory, ReadRequest, copy_buffer, store, copy_buffer_lem}
use async_ery.Io.Aio.{
  AioLibrary, InFlightAioRequest, Reports, result, is_completed, parse_aio_error, no_exist, unknown,
  IsSettled, result_completed,
}
use async_ery.Io.PollSource.{PollSource, poll}
use async_ery.Io.PollSource.History.{Op, reads, polls, proceeds, run, callbacks_weight, reads_lem}
use async_ery.Io.PollSource.Laws.{keep, done, poll_lem, Delivers, run_job_lem}

-- The state of the system is the status of each buffer's request; a read that starts is in progress.
abbrev codes : AioLibrary (ℕ → ℕ)
codes = record {
  einprogress = 115;
  ecanceled = 125;
  eexist = 17;
  aio_error = λ sys cb. sys cb.aio_buf;
  aio_read = λ sys cb. λ b. if b == cb.aio_buf then 115 else sys b;
}

-- `enoent` is 2.
missing_file : parse_aio_error codes 2 ≡ unknown
unfolding parse_aio_error
missing_file = refl

existing_file : parse_aio_error codes 17 ≡ no_exist
unfolding parse_aio_error
existing_file = refl

abbrev read_of : ℕ → ReadRequest
read_of b = record { buffer = b; nbytes = 2; file_offset = pos 0 }

abbrev in_flight : ℕ → InFlightAioRequest
in_flight b = record {
  request = read_of b;
  control_block = record { aio_fildes = 3; aio_buf = b; aio_nbytes = 2; aio_offset = pos 0 };
}

-- Request 0 has its data, request 1 was cancelled, and the others are in progress.
abbrev statuses : ℕ → ℕ
statuses b = get_or (0 ∷ 125 ∷ []) b 115

-- A callback is a number.
abbrev source : PollSource ℕ
source = record {
  in_flight_requests =
      record { callback = 10; request = in_flight 0 }
      ∷ record { callback = 12; request = in_flight 2 }
      ∷ record { callback = 11; request = in_flight 1 }
      ∷ [];
}

result_completed_example : Reports codes (read_of 1) 125 (result codes statuses (in_flight 1))
unfolding is_completed
result_completed_example = result_completed codes statuses (in_flight 1) refl

poll_lem_example :
    let (jobs, s) = poll codes source statuses in
    (jobs ≡ keep (done codes statuses) source.in_flight_requests)
    × (s.in_flight_requests ≡ keep (λ w. not (done codes statuses w)) source.in_flight_requests)
    × ((poll codes s statuses).0 ≡ [])
poll_lem_example = poll_lem codes source statuses

-- Request 2 fails before the jobs run.
abbrev later_statuses : ℕ → ℕ
later_statuses b = get_or (0 ∷ 125 ∷ 17 ∷ []) b 115

unchanged : (b : ℕ) → statuses b ≢ 115 → later_statuses b ≡ statuses b
unchanged zero h = refl
unchanged (suc zero) h = refl
unchanged (suc (suc b)) h = absurd (h refl)

later_statuses-IsSettled : IsSettled codes statuses later_statuses
later_statuses-IsSettled cb = unchanged cb.aio_buf

run_job_lem_example : All (Delivers codes later_statuses) (poll codes source statuses).0
run_job_lem_example = run_job_lem codes source statuses later_statuses later_statuses-IsSettled

abbrev memory : Memory
memory = record { bytes = λ b. 4 ∷ 2 ∷ []; next = 5 }

copy_buffer_lem_example :
    let (copy, m) = copy_buffer memory (read_of 3) in
    (copy ≢ 3)
    × (m.bytes copy ≡ 4 ∷ 2 ∷ [])
    × (m.bytes 3 ≡ 4 ∷ 2 ∷ [])
    × ((store m 3 []).bytes copy ≡ 4 ∷ 2 ∷ [])
copy_buffer_lem_example = copy_buffer_lem memory (read_of 3) [] (omega arith) refl

abbrev same : ℕ → ℕ
same x = x

-- Request 4 is queued and completed between two polls.
abbrev calls : List (Op (ℕ → ℕ) ℕ)
calls =
    polls ∷ reads 3 (read_of 4) 14 ∷ proceeds (λ sys b. if b == 4 then 0 else sys b) ∷ polls ∷ []

reads_lem_example :
    let (jobs, s) = run codes source statuses calls in
    callbacks_weight codes same jobs + callbacks_weight codes same s.in_flight_requests ≡ 47
reads_lem_example = reads_lem codes same calls source statuses
