-- ===== src/Cell/TrackingOnce.antt =====
-- src/cell/include/cell/tracking_once_cell.h. `R` is the type of references to cells. What the tracked
-- cell does with a call that is handed on to it is left to the caller.
use async_ery.Base.{Bool, true, false, Option, none, some, List, [], ◌∷◌, ◌++◌}

pub record TrackingOnceCell {ℓ} (C R : Type ℓ) : Type ℓ where
  pub cell : Option R
  pub callbacks : List C

module _ {ℓ} {C R : Type ℓ} where
  abbrev pub make : TrackingOnceCell C R
  make = record { cell = none; callbacks = [] }

  -- `await` while no cell is tracked.
  unfoldable pub hold : TrackingOnceCell C R → C → TrackingOnceCell C R
  hold t callback = record t { callbacks = t.callbacks ++ callback ∷ [] }

  -- `track`, by whether a cell is tracked: the result, the cell, and the callbacks that are registered
  -- with `new_cell`.
  unfoldable pub track_at :
      Option R → TrackingOnceCell C R → R → Bool × TrackingOnceCell C R × List C
  track_at (some old) t new_cell = (false, t, [])
  track_at none t new_cell = (true, record { cell = some new_cell; callbacks = [] }, t.callbacks)

  unfoldable pub track : TrackingOnceCell C R → R → Bool × TrackingOnceCell C R × List C
  unfolding track_at
  track t new_cell = track_at t.cell t new_cell
