-- ===== src/Async/Sources/Laws.antt =====
-- The task of a read, from the poll source to the callbacks of the task.
use async_ery.Base.{
  ℕ, ◌≡◌, ◌≢◌, ◌⊎◌, inl, inr, refl, sym, subst, true, none, some, List, [], ◌∷◌, ◌++◌, map,
  same_number, ap,
}
use async_ery.Cell.Result.{Result, value, error}
use async_ery.Cell.WriteOnce.{WriteOnceCell, write_result_to_value}
use async_ery.Cell.WriteOnce
use async_ery.Scheduler.Context.{Context, empty}
use async_ery.Async.Store.{
  Ref, source, Callback, once, call, Store, write, write_cell, read, read_cell, job_of,
}
use async_ery.Async.ValueSource.{TaskValueSource, create, complete, complete_error}
use async_ery.Async.Sources.{Error, io_error, read_callback, run_read_job}
use async_ery.Io.Request.{ReadRequest}
use async_ery.Io.Aio.{
  AioLibrary, AioResult, is_completed, result, result_completed, is_completed_settled, IsSettled,
  Reports,
}
use async_ery.Io.PollSource.{Waiting, run_job}

module _ {V : Type 0} (pack : List V → V) where
  -- A cell with no value in which the callbacks of `waiting` wait.
  abbrev pub Awaits : Store V Error → Ref → List (Callback V) → Type 0
  Awaits s c waiting = s.cells c ≡ once (record { value = none; callbacks = waiting })

  -- The cell has the result, and its callbacks are queued with it after the other jobs.
  abbrev pub Resolved :
      Store V Error → Store V Error → Ref → Context → List (Callback V) → Result V Error → Type 0
  Resolved s s' c ctx waiting r =
      (read pack 1 s' c ≡ some r)
      × (s'.jobs ≡ s.jobs ++ map (λ callback. record { ctx = ctx; work = call callback r }) waiting)

  jobs_of :
      (ctx : Context) (r : Result V Error) (waiting : List (Callback V))
      → map job_of (map (WriteOnce.deliver ctx r) waiting)
        ≡ map (λ callback. record { ctx = ctx; work = call callback r }) waiting
  jobs_of ctx r [] = refl
  jobs_of ctx r (callback ∷ waiting) =
      ap (λ jobs. record { ctx = ctx; work = call callback r } ∷ jobs) (jobs_of ctx r waiting)

  write-Resolved :
      (s : Store V Error) (k : ℕ) (ctx : Context) (waiting : List (Callback V)) (r : Result V Error)
      → Awaits s (source k) waiting
      → Resolved s (write pack s ctx (source k) r) (source k) ctx waiting r
  unfolding write write_cell read read_cell write_result_to_value WriteOnce.read
  write-Resolved s k ctx waiting r e =
      subst (λ x. Resolved s (write_cell pack x s ctx (source k) r) (source k) ctx waiting r)
        (sym e) (rw (same_number k) refl, ap (λ jobs. s.jobs ++ jobs) (jobs_of ctx r waiting))

  -- What the status of a request says of its task.
  abbrev pub Outcome : (ReadRequest → V) → ReadRequest → ℕ → Result V Error → Type 0
  Outcome of_request request status r =
      ((status ≡ 0) × (r ≡ value (of_request request))) ⊎ ((status ≢ 0) × (r ≡ error io_error))

  -- A read that `poll` found completed gives its task, whatever the system does until the job runs,
  -- the request if its status is zero and `io_error` otherwise; the callbacks that waited are queued
  -- with that result.
  pub read_task_lem :
      {System : Type 0} (lib : AioLibrary System) (of_request : ReadRequest → V) (sys sys' : System)
      → IsSettled lib sys sys'
      → (w : Waiting TaskValueSource) → is_completed lib sys w.request ≡ true
      → (s : Store V Error) (waiting : List (Callback V)) → Awaits s (create w.callback) waiting
      → (r : Result V Error) × Outcome of_request w.request.request
          (lib.aio_error sys' w.request.control_block)
          r
        × Resolved s (run_read_job pack lib of_request s sys' w) (create w.callback) empty waiting r
  unfolding run_read_job read_callback complete complete_error run_job
  read_task_lem lib of_request sys sys' settled w done s waiting e =
      at (result lib sys' w.request) (
        result_completed lib sys' w.request
          (is_completed_settled lib sys sys' settled w.request done))
    where
      at :
          (io_result : AioResult ReadRequest)
          → Reports lib w.request.request (lib.aio_error sys' w.request.control_block) io_result
          → (r : Result V Error) × Outcome of_request w.request.request
              (lib.aio_error sys' w.request.control_block)
              r
            × Resolved s
                (read_callback pack of_request s w.callback io_result)
                (create w.callback)
                empty
                waiting
                r
      at io_result (inl (ok, same)) =
          let r = value (of_request w.request.request) in
          (
            r,
            inl (ok, refl),
            subst
                (λ q.
                  Resolved s (read_callback pack of_request s w.callback q) (create w.callback)
                    empty waiting r)
                (sym same) (write-Resolved s w.callback.task_cell empty waiting r e),
          )
      at io_result (inr (bad, (x, same, other))) =
          let r = error io_error in
          (
            r,
            inr (bad, refl),
            subst
                (λ q.
                  Resolved s (read_callback pack of_request s w.callback q) (create w.callback)
                    empty waiting r)
                (sym same) (write-Resolved s w.callback.task_cell empty waiting r e),
          )
