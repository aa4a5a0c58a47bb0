-- ===== src/Async/Due/Live.antt =====
-- When an expression can come to a result, and when a cell can be read.
use async_ery.Base.{ℕ, ◌≡◌, refl, ap, true, Option, none, some, List}
use mathlib.Core.Option
use mathlib.Core.Option.{none-ne-some}
use async_ery.Cell.Result.{Result, value}
use async_ery.Cell.WriteOnce
use async_ery.Cell.WriteOnce.Lossless.{filled}
use async_ery.Async.Program.{Prog, Progs, nil, cons, Means}
use async_ery.Async.Store.{Ref, source, ICell, once, tracking, any, all, Store, read_cell, packed}
use async_ery.Async.Later.{follows, valued}
use async_ery.Async.Due.{IsProper}

module _ {V Err : Type 0} where
  module _ (blank : V) (pack : List V → V) (Src : ℕ → Result V Err → Type 0) where
    unfoldable mutual
      -- The value sources have their results, of an expression and of what its `bind`s may come to, and
      -- the joined vectors are proper.
      pub Live : Store V Err → Prog V → Type 0
      Live s (Prog.source k) = valued (s.cells (source k)) ≡ true
      Live s (Prog.create v) = Unit
      Live s (Prog.map p f) = Live s p
      Live s (Prog.bind p f) =
          Live s p × ((v : V) → Means blank pack Src p (value v) → Live s (f v))
      Live s (Prog.when_any ps) = IsProper ps × AllLive s ps
      Live s (Prog.when_all ps) = IsProper ps × AllLive s ps

      pub AllLive : Store V Err → Progs V → Type 0
      AllLive s nil = Unit
      AllLive s (cons p ps) = Live s p × AllLive s ps

  module _ (pack : List V → V) where
    packed-filled :
        (o : Option (Result (List V) Err))
        → filled o ≡ true
        → (r : Result V Err) × (Option.map (packed pack) o ≡ some r)
    packed-filled (some q) e = (packed pack q, refl)
    packed-filled none e = absurd (cc e)

    filled-some : (o : Option (Result V Err)) → filled o ≡ true → (r : Result V Err) × (o ≡ some r)
    filled-some (some r) e = (r, refl)
    filled-some none e = absurd (cc e)

    pub valued_read :
        (x : ICell V Err) (rest : Ref → Option (Result V Err))
        → valued x ≡ true
        → (r : Result V Err) × (read_cell pack x rest ≡ some r)
    unfolding read_cell WriteOnce.read
    valued_read (once k) rest e = filled-some k.value e
    valued_read (tracking t) rest e = absurd (cc e)
    valued_read (any k) rest e = filled-some k.underlying_cell.value e
    valued_read (all k) rest e = packed-filled k.underlying_cell.value e

    pub follows_read :
        (x : ICell V Err) (rest : Ref → Option (Result V Err)) (d : Ref)
        → follows x ≡ some d
        → read_cell pack x rest ≡ rest d
    unfolding read_cell
    follows_read (once k) rest d e = absurd (none-ne-some d e)
    follows_read (any k) rest d e = absurd (none-ne-some d e)
    follows_read (all k) rest d e = absurd (none-ne-some d e)
    follows_read (tracking t) rest d e = ap (λ o. elim o [ some b ↦ rest b | none ↦ none ]) e
