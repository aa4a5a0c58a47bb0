-- ===== src/Async/Owed/Quiet.antt =====
-- No callback waits in a cell that can be read.
use async_ery.Base.{ℕ, zero, suc, ◌≡◌, refl, subst, Option, none, some, List, [], Mem}
use mathlib.Core.Option
use mathlib.Core.Option.{none-ne-some}
use async_ery.Cell.Result.{Result}
use async_ery.Cell.WriteOnce
use async_ery.Async.Store.{
  Ref, Callback, ICell, once, tracking, any, all, Store, read, read_cell, packed,
}
use async_ery.Async.Sound.{In}
use async_ery.Async.Owed.{held, follows, Waits, here, there, Tidy, Linked}

module _ {V Err : Type 0} (pack : List V → V) where
  packed-some :
      (k : Option (Result (List V) Err)) (r : Result V Err)
      → Option.map (packed pack) k ≡ some r
      → (q : Result (List V) Err) × (k ≡ some q)
  packed-some (some q) r e = (q, refl)
  packed-some none r e = absurd (none-ne-some r e)

  module _ (rest : Ref → Option (Result V Err)) where
    tracked-some :
        (o : Option Ref) (r : Result V Err)
        → elim o [ some d ↦ rest d | none ↦ none ] ≡ some r
        → (d : Ref) × (o ≡ some d)
    tracked-some (some d) r e = (d, refl)
    tracked-some none r e = absurd (none-ne-some r e)

    -- A cell that can be read holds nothing, and if it tracks a cell, that one gave the result.
    read_cell-held :
        (x : ICell V Err) (r : Result V Err) → Tidy x → read_cell pack x rest ≡ some r → held x ≡ []
    unfolding read_cell WriteOnce.read
    read_cell-held (once k) r tidy e = tidy r e
    read_cell-held (any k) r tidy e = tidy r e
    read_cell-held (all k) r tidy e =
        let q = packed-some k.underlying_cell.value r e in tidy q.0 q.1
    read_cell-held (tracking t) r tidy e = let d = tracked-some t.cell r e in tidy d.0 d.1

    read_cell-follows :
        (x : ICell V Err) (d : Ref) (r : Result V Err)
        → follows x ≡ some d
        → read_cell pack x rest ≡ some r
        → rest d ≡ some r
    unfolding read_cell
    read_cell-follows (once k) d r f e = absurd (none-ne-some d f)
    read_cell-follows (any k) d r f e = absurd (none-ne-some d f)
    read_cell-follows (all k) d r f e = absurd (none-ne-some d f)
    read_cell-follows (tracking t) d r f e =
        subst (λ o. elim o [ some d ↦ rest d | none ↦ none ] ≡ some r) f e

  pub read-quiet :
      (next fuel : ℕ) (s : Store V Err) (c : Ref) (callback : Callback V) (r : Result V Err)
      → Linked next s
      → In next c
      → read pack fuel s c ≡ some r
      → Waits s c callback
      → ⊥
  unfolding read
  read-quiet next zero s c callback r l i e w = none-ne-some r e
  read-quiet next (suc fuel) s c callback r l i e (here m) =
      subst (Mem callback) (read_cell-held (read pack fuel s) (s.cells c) r (l.tidy c i) e) m
  read-quiet next (suc fuel) s c callback r l i e (there d f w) =
      read-quiet next fuel s d callback r l (l.climbs c i d f).0
        (read_cell-follows (read pack fuel s) (s.cells c) d r f e) w
