-- ===== src/Async/Store.antt =====
-- The cells that tasks share, the callbacks that wait in them, and the queue of the scheduler. An
-- `ICell` is known by a reference, and a virtual call goes by the kind of the cell.
use async_ery.Base.{
  ℕ, zero, suc, Bool, false, Option, none, some, List, [], ◌∷◌, ◌++◌, map, ◌==◌, if◌then◌else◌,
}
use mathlib.Core.Option
use async_ery.Cell.Result.{Result, value, error}
use async_ery.Cell.WriteOnce.{Delivery, WriteOnceCell, write_result_to_value}
use async_ery.Cell.WriteOnce
use async_ery.Cell.TrackingOnce.{TrackingOnceCell, hold}
use async_ery.Cell.TrackingOnce
use async_ery.Cell.WhenAny
use async_ery.Cell.WhenAny.{WhenAnyCell}
use async_ery.Cell.WhenAll
use async_ery.Cell.WhenAll.{WhenAllCell}
use async_ery.Scheduler.Context.{Context}
use async_ery.Async.Program.{Prog}

-- The cell of a value source, or one that a call of the library has made.
pub data Ref : Type 0 where
  source : ℕ → Ref
  cell : ℕ → Ref

abbrev pub same_ref : Ref → Ref → Bool
same_ref (source m) (source n) = m == n
same_ref (cell m) (cell n) = m == n
same_ref (source m) (cell n) = false
same_ref (cell m) (source n) = false

-- The closures that the library registers, by what they capture, and those of a client. `any_to` also
-- notes the place of the cell it was registered with, which the code does not look at.
pub data Callback (V : Type 0) : Type 0 where
  map_to : Ref → (V → V) → Callback V
  bind_to : Ref → Ref → (V → Prog V) → Callback V
  any_to : Ref → ℕ → Callback V
  all_to : Ref → ℕ → Callback V
  user : ℕ → Callback V

-- The subclasses of `ICell`.
pub data ICell (V Err : Type 0) : Type 0 where
  once : WriteOnceCell (Callback V) V Err → ICell V Err
  tracking : TrackingOnceCell (Callback V) Ref → ICell V Err
  any : WhenAnyCell (Callback V) V Err → ICell V Err
  all : WhenAllCell (Callback V) V Err → ICell V Err

-- What a job does: call a callback, or compute a value for a cell.
pub data Work (V Err : Type 0) : Type 0 where
  call : Callback V → Result V Err → Work V Err
  compute : Ref → V → Work V Err

pub record Job (V Err : Type 0) : Type 0 where
  pub ctx : Context
  pub work : Work V Err

-- `log` holds what the callbacks of the client were called with.
pub record Store (V Err : Type 0) : Type 0 where
  pub cells : Ref → ICell V Err
  pub jobs : List (Job V Err)
  pub log : List (ℕ × Result V Err)

module _ {V Err : Type 0} where
  abbrev pub put : Store V Err → Ref → ICell V Err → Store V Err
  put s c x = record s { cells = λ d. if same_ref c d then x else s.cells d }

  -- `IScheduler::queue`
  abbrev pub queue : Store V Err → List (Job V Err) → Store V Err
  queue s jobs = record s { jobs = s.jobs ++ jobs }

  abbrev pub job_of : Delivery (Callback V) V Err → Job V Err
  job_of d = record { ctx = d.ctx; work = call d.callback d.result }

  module _ (pack : List V → V) where
    abbrev pub packed : Result (List V) Err → Result V Err
    packed (value vs) = value (pack vs)
    packed (error e) = error e

    abbrev pub packed_job_of : Delivery (Callback V) (List V) Err → Job V Err
    packed_job_of d = record { ctx = d.ctx; work = call d.callback (packed d.result) }

    -- `read` of a cell of each kind; `rest` is the call on the cell that is tracked.
    unfoldable pub read_cell : ICell V Err → (Ref → Option (Result V Err)) → Option (Result V Err)
    read_cell (once k) rest = WriteOnce.read k
    read_cell (tracking t) rest = elim t.cell [ some d ↦ rest d | none ↦ none ]
    read_cell (any k) rest = WriteOnce.read k.underlying_cell
    read_cell (all k) rest = Option.map packed (WriteOnce.read k.underlying_cell)

    -- The fuel bounds the tracking cells that are passed on the way.
    unfoldable pub read : ℕ → Store V Err → Ref → Option (Result V Err)
    unfolding read_cell
    read zero s c = none
    read (suc fuel) s c = read_cell (s.cells c) (read fuel s)

    -- `await` on a cell of each kind; `rest` is the call on the cell that is tracked.
    unfoldable pub await_cell :
        ICell V Err → (Ref → Store V Err) → Store V Err → Ref → Callback V → Store V Err
    await_cell (once k) rest s c callback =
        let (k', calls) = WriteOnce.await k callback in queue (put s c (once k')) (map job_of calls)
    await_cell (tracking t) rest s c callback = elim t.cell [
      | some d ↦ rest d
      | none ↦ put s c (tracking (hold t callback))
    ]
    await_cell (any k) rest s c callback =
        let (cell', calls) = WriteOnce.await k.underlying_cell callback in
        queue (put s c (any (record k { underlying_cell = cell' }))) (map job_of calls)
    await_cell (all k) rest s c callback =
        let (cell', calls) = WriteOnce.await k.underlying_cell callback in
        queue (put s c (all (record k { underlying_cell = cell' }))) (map packed_job_of calls)

    unfoldable pub await : ℕ → Store V Err → Ref → Callback V → Store V Err
    unfolding await_cell
    await zero s c callback = s
    await (suc fuel) s c callback =
        await_cell (s.cells c) (λ d. await fuel s d callback) s c callback

    -- The loop of `track`.
    unfoldable pub await_each : ℕ → Store V Err → Ref → List (Callback V) → Store V Err
    await_each fuel s c [] = s
    await_each fuel s c (callback ∷ callbacks) =
        await_each fuel (await fuel s c callback) c callbacks

    unfoldable pub track_cell : ICell V Err → ℕ → Store V Err → Ref → Ref → Store V Err
    unfolding await_each
    track_cell (tracking t) fuel s c new_cell =
        let (ok, t', callbacks) = TrackingOnce.track t new_cell in
        await_each fuel (put s c (tracking t')) new_cell callbacks
    track_cell other fuel s c new_cell = s

    unfoldable pub track : ℕ → Store V Err → Ref → Ref → Store V Err
    unfolding track_cell
    track fuel s c new_cell = track_cell (s.cells c) fuel s c new_cell

    -- `write` and `error` of a write-once cell.
    unfoldable pub write_cell :
        ICell V Err → Store V Err → Context → Ref → Result V Err → Store V Err
    write_cell (once k) s ctx c result =
        let (ok, k', calls) = write_result_to_value k ctx result in
        queue (put s c (once k')) (map job_of calls)
    write_cell other s ctx c result = s

    unfoldable pub write : Store V Err → Context → Ref → Result V Err → Store V Err
    unfolding write_cell
    write s ctx c result = write_cell (s.cells c) s ctx c result

    -- The callbacks that a `when_any` and, for cell `i`, a `when_all` cell have registered.
    unfoldable pub report_any_cell :
        ICell V Err → Store V Err → Context → Ref → Result V Err → Store V Err
    report_any_cell (any k) s ctx c result =
        let (k', calls) = WhenAny.on_result k ctx result in
        queue (put s c (any k')) (map job_of calls)
    report_any_cell other s ctx c result = s

    unfoldable pub report_any : Store V Err → Context → Ref → Result V Err → Store V Err
    unfolding report_any_cell
    report_any s ctx c result = report_any_cell (s.cells c) s ctx c result

    unfoldable pub report_all_cell :
        ICell V Err → Store V Err → Context → Ref → ℕ → Result V Err → Store V Err
    report_all_cell (all k) s ctx c i result =
        let (k', calls) = WhenAll.on_result k ctx i result in
        queue (put s c (all k')) (map packed_job_of calls)
    report_all_cell other s ctx c i result = s

    unfoldable pub report_all : Store V Err → Context → Ref → ℕ → Result V Err → Store V Err
    unfolding report_all_cell
    report_all s ctx c i result = report_all_cell (s.cells c) s ctx c i result
