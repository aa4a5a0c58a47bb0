-- ===== src/Async/Sound/Tracking.antt =====
-- Tracking a cell and writing to one keep the store sound.
use async_ery.Base.{ℕ, subst, Option, none, some, List, [], ◌∷◌, All}
use mathlib.Core.Option.{some-injective}
use async_ery.Cell.Result.{Result}
use async_ery.Cell.WriteOnce.{write_result_to_value}
use async_ery.Cell.WriteOnce.Held.{write-Held}
use async_ery.Cell.TrackingOnce.{track_at}
use async_ery.Cell.TrackingOnce
use async_ery.Scheduler.Context.{Context}
use async_ery.Async.Program.{Prog}
use async_ery.Async.Store.{
  Ref, Callback, ICell, once, tracking, any, all, Store, put, await, await_each, track, track_cell,
  write, write_cell,
}
use async_ery.Async.Task.{made_of}
use async_ery.Async.Sound.{In, May, Leads}
use async_ery.Async.Sound.Cells.{Keeps, Holds, Suits, Q, F, meets, changed, put_sound, await_sound}

module _ {V Err : Type 0} (blank : V) (pack : List V → V) (Src : ℕ → Result V Err → Type 0)
    (User : ℕ → Result V Err → Type 0) (made : ℕ → Prog V) (next : ℕ) where
  await_each_sound :
      (fuel : ℕ) (s : Store V Err) (c : Ref) (callbacks : List (Callback V))
      → In next c
      → All (Suits blank pack Src User made next c) callbacks
      → Keeps blank pack Src User made next s
      → Keeps blank pack Src User made next (await_each pack fuel s c callbacks)
  unfolding await_each
  await_each_sound fuel s c [] i w v = v
  await_each_sound fuel s c (callback ∷ callbacks) i w v =
      await_each_sound fuel (await pack fuel s c callback) c callbacks i w.1
        (await_sound blank pack Src User made next fuel s c callback i w.0 v)

  -- The callbacks that wait in a tracking cell suit a cell that may have fewer results.
  narrowed :
      (c d : Ref) (callbacks : List (Callback V))
      → ((r : Result V Err)
          → May blank pack Src User made next d r
          → May blank pack Src User made next c r)
      → All (Suits blank pack Src User made next c) callbacks
      → All (Suits blank pack Src User made next d) callbacks
  narrowed c d [] sub h = tt
  narrowed c d (callback ∷ callbacks) sub h =
      (λ r m. h.0 r (sub r m), narrowed c d callbacks sub h.1)

  track_cell_sound :
      (x : ICell V Err) (fuel : ℕ) (s : Store V Err) (c d : Ref)
      → Keeps blank pack Src User made next s
      → Holds blank pack Src User made next c x
      → In next d
      → ((r : Result V Err)
          → May blank pack Src User made next d r
          → May blank pack Src User made next c r)
      → Leads blank pack Src User made next c d (made_of made c)
      → Keeps blank pack Src User made next (track_cell pack x fuel s c d)
  unfolding track_cell TrackingOnce.track
  track_cell_sound (tracking t) fuel s c d v h i sub lead = at t.cell
    where
      at :
          (o : Option Ref)
          → let (ok, t', callbacks) = track_at o t d in
            Keeps blank pack Src User made next
              (await_each pack fuel (put s c (tracking t')) d callbacks)
      at (some old) = put_sound blank pack Src User made next s c (tracking t) v h
      at none =
          await_each_sound fuel (put s c (tracking (record { cell = some d; callbacks = [] }))) d
            t.callbacks i (narrowed c d t.callbacks sub h.1)
            (put_sound blank pack Src User made next s c
              (tracking (record { cell = some d; callbacks = [] })) v
              (
                λ d' e.
                    subst
                      (λ a.
                        In next a
                        × ((r : Result V Err)
                            → May blank pack Src User made next a r
                            → May blank pack Src User made next c r)
                        × Leads blank pack Src User made next c a (made_of made c))
                      (some-injective d d' e) (i, sub, lead),
                tt,
              ))
  track_cell_sound (once k) fuel s c d v h i sub lead = v
  track_cell_sound (any k) fuel s c d v h i sub lead = v
  track_cell_sound (all k) fuel s c d v h i sub lead = v

  -- Tracking a cell that may have no other results than the tracking cell.
  pub track_sound :
      (fuel : ℕ) (s : Store V Err) (c d : Ref)
      → In next c
      → In next d
      → ((r : Result V Err)
          → May blank pack Src User made next d r
          → May blank pack Src User made next c r)
      → Leads blank pack Src User made next c d (made_of made c)
      → Keeps blank pack Src User made next s
      → Keeps blank pack Src User made next (track pack fuel s c d)
  unfolding track
  track_sound fuel s c d i j sub lead v =
      track_cell_sound (s.cells c) fuel s c d v (v.cells c i) j sub lead

  write_cell_sound :
      (x : ICell V Err) (s : Store V Err) (ctx : Context) (c : Ref) (r : Result V Err)
      → Keeps blank pack Src User made next s
      → Holds blank pack Src User made next c x
      → May blank pack Src User made next c r
      → Keeps blank pack Src User made next (write_cell pack x s ctx c r)
  unfolding write_cell
  write_cell_sound (once k) s ctx c r v h m =
      let held =
        write-Held (Q blank pack Src User made next V (λ r. r) c)
          (Suits blank pack Src User made next c) (F blank pack Src User made next V (λ r. r) c)
          (meets blank pack Src User made next V (λ r. r) c) k ctx r h m in
      changed blank pack Src User made next s c (once (write_result_to_value k ctx r).1)
        (write_result_to_value k ctx r).2 v held.0 held.1
  write_cell_sound (tracking t) s ctx c r v h m = v
  write_cell_sound (any k) s ctx c r v h m = v
  write_cell_sound (all k) s ctx c r v h m = v

  -- Writing a result that the cell may have.
  pub write_sound :
      (s : Store V Err) (ctx : Context) (c : Ref) (r : Result V Err)
      → In next c
      → May blank pack Src User made next c r
      → Keeps blank pack Src User made next s
      → Keeps blank pack Src User made next (write pack s ctx c r)
  unfolding write
  write_sound s ctx c r i m v = write_cell_sound (s.cells c) s ctx c r v (v.cells c i) m
