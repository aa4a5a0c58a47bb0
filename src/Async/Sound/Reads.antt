-- ===== src/Async/Sound/Reads.antt =====
-- What is read from a sound store, and the store at the start.
use async_ery.Base.{ℕ, zero, suc, ◌≡◌, refl, subst, Option, none, some, List}
use mathlib.Core.Option
use mathlib.Core.Option.{none-ne-some, some-injective}
use async_ery.Cell.Result.{Result}
use async_ery.Cell.WriteOnce
use async_ery.Async.Program.{Prog, Means}
use async_ery.Async.Store.{Ref, ICell, once, tracking, any, all, read, read_cell, packed}
use async_ery.Async.Task.{World, program_of, initial}
use async_ery.Async.Sound.{In, May, Good}
use async_ery.Async.Sound.Worlds.{SoundWorld}

module _ {V Err : Type 0} (blank : V) (pack : List V → V) (Src : ℕ → Result V Err → Type 0)
    (User : ℕ → Result V Err → Type 0) where
  -- A result that is found in a cell.
  read_cell_sound :
      (made : ℕ → Prog V) (next : ℕ) (c : Ref) (x : ICell V Err)
      (rest : Ref → Option (Result V Err)) (r : Result V Err)
      → Good blank pack Src User made next c x
      → ((d : Ref) (q : Result V Err)
          → In next d
          → rest d ≡ some q
          → May blank pack Src User made next d q)
      → read_cell pack x rest ≡ some r
      → May blank pack Src User made next c r
  unfolding read_cell WriteOnce.read
  read_cell_sound made next c (once k) rest r h go e = h.0 r e
  read_cell_sound made next c (tracking t) rest r h go e = at t.cell refl e
    where
      at :
          (o : Option Ref)
          → t.cell ≡ o
          → elim o [ some d ↦ rest d | none ↦ none ] ≡ some r
          → May blank pack Src User made next c r
      at (some d) e' e = let tracked = h.0 d e' in tracked.1 r (go d r tracked.0 e)
      at none e' e = absurd (none-ne-some r e)
  read_cell_sound made next c (any k) rest r h go e = h.0 r e
  read_cell_sound made next c (all k) rest r h go e = at k.underlying_cell.value refl e
    where
      at :
          (o : Option (Result (List V) Err))
          → k.underlying_cell.value ≡ o
          → Option.map (packed pack) o ≡ some r
          → May blank pack Src User made next c r
      at (some q) e' e =
          subst (May blank pack Src User made next c) (some-injective _ _ e) (h.0 q e')
      at none e' e = absurd (none-ne-some r e)

  -- What can be read from a cell is what its expression may have.
  pub read_sound :
      (fuel : ℕ) (w : World V Err) (c : Ref) (r : Result V Err)
      → SoundWorld blank pack Src User w
      → In w.next c
      → read pack fuel w.store c ≡ some r
      → Means blank pack Src (program_of w c) r
  unfolding read
  read_sound zero w c r h i e = absurd (none-ne-some r e)
  read_sound (suc fuel) w c r h i e =
      read_cell_sound w.made w.next c (w.store.cells c) (read pack fuel w.store) r (h.cells c i)
        (λ d q j e'. read_sound fuel w d q h j e') e

  pub initial_sound : SoundWorld blank pack Src User (initial {V = V} {Err = Err})
  initial_sound = record {
    cells = λ c i. (λ r e. absurd (none-ne-some r e), tt);
    jobs = tt;
    log = tt;
  }
