-- ===== src/Async/Sound.antt =====
-- When the store is sound: each cell holds, and each callback will be called with, a result that the
-- expression of its cell may have.
mod Grow
pub mod Cells
mod Tracking
pub mod Reports
pub mod Worlds
mod Makes
pub mod Joins
pub mod Build
pub mod Jobs
pub mod Reads
use async_ery.Base.{
  ◌⊎◌, ℕ, suc, ◌≡◌, ◌<◌, refl, ap, Option, none, some, List, [], ◌∷◌, ◌++◌, get_or, All, Bool-cases,
  inl, inr, true, false, equal,
}
use async_ery.Cell.Result.{Result, value, error}
use async_ery.Cell.WriteOnce.{WriteOnceCell}
use async_ery.Async.Program.{Prog, how_many, prog_at, mapped, Means}
use async_ery.Async.Program
use async_ery.Async.Store.{
  Ref, source, cell, same_ref, Callback, map_to, bind_to, any_to, all_to, user, ICell, once,
  tracking, any, all, Work, call, compute, Job, Store, put, queue, packed,
}
use async_ery.Async.Task.{World, made_of}

-- The cells that there are, when `next` were allocated.
abbrev pub In : ℕ → Ref → Type 0
In next (source k) = Unit
In next (cell n) = n < next

-- The second cell was allocated after the first one, or is that of a source.
abbrev pub Above : Ref → Ref → Type 0
Above (source k) d = ⊥
Above (cell n) (source k) = Unit
Above (cell n) (cell m) = n < m

-- The error cell of a `bind` is the one after its cell.
abbrev pub after : Ref → Ref
after (source k) = source k
after (cell n) = cell (suc n)

module _ {V Err : Type 0} (blank : V) (pack : List V → V) (Src : ℕ → Result V Err → Type 0)
    (User : ℕ → Result V Err → Type 0) where
  -- The `i`-th task of a `when_all`, and of a `when_any`, may have this result.
  abbrev pub InAll : Prog V → ℕ → Result V Err → Type 0
  InAll (Prog.when_all ps) i r = (i < how_many ps) × Means blank pack Src (prog_at ps i) r
  InAll (Prog.source k) i r = ⊥
  InAll (Prog.create u) i r = ⊥
  InAll (Prog.map p f) i r = ⊥
  InAll (Prog.bind p f) i r = ⊥
  InAll (Prog.when_any ps) i r = ⊥

  abbrev pub InAny : Prog V → ℕ → Result V Err → Type 0
  InAny (Prog.when_any ps) i r = (i < how_many ps) × Means blank pack Src (prog_at ps i) r
  InAny (Prog.source k) i r = ⊥
  InAny (Prog.create u) i r = ⊥
  InAny (Prog.map p f) i r = ⊥
  InAny (Prog.bind p f) i r = ⊥
  InAny (Prog.when_all ps) i r = ⊥

  module _ (made : ℕ → Prog V) (next : ℕ) where
    abbrev pub May : Ref → Result V Err → Type 0
    May c = Means blank pack Src (made_of made c)

    abbrev pub BindFits : Ref → Ref → (V → Prog V) → Result V Err → Type 0
    BindFits t e f (value v) = (q : Result V Err) → Means blank pack Src (f v) q → May t q
    BindFits t e f (error x) = May e (error x)

    abbrev pub AllFits : Ref → ℕ → Result V Err → Type 0
    AllFits d i (value v) = InAll (made_of made d) i (value v)
    AllFits d i (error x) = May d (error x)

    abbrev pub AnyFits : Ref → ℕ → Result V Err → Type 0
    AnyFits d i (value v) = May d (value v)
    AnyFits d i (error x) = InAny (made_of made d) i (error x)

    -- What the cell of a `bind` tracks: a task of its function, for a value that the function may be
    -- called with, or the error cell.
    abbrev pub Leads : Ref → Ref → Prog V → Type 0
    Leads c d (Prog.bind p f) =
        ((v : V) × Means blank pack Src p (value v) × (made_of made d ≡ f v))
        ⊎ ((d ≡ after c) × (made_of made d ≡ Prog.bind p f))
    Leads c d (Prog.source k) = Unit
    Leads c d (Prog.create v) = Unit
    Leads c d (Prog.map p f) = Unit
    Leads c d (Prog.when_any ps) = Unit
    Leads c d (Prog.when_all ps) = Unit

    -- A callback may be called with this result.
    abbrev pub Fits : Callback V → Result V Err → Type 0
    Fits (map_to d f) r = In next d × May d (mapped f r)
    Fits (bind_to t e f) r =
        In next t
        × In next e
        × BindFits t e f r
        × ((q : Result V Err) → May e q → May t q)
        × Above t e
        × ((p : Prog V) × (made_of made t ≡ Prog.bind p f) × Means blank pack Src p r)
        × (e ≡ after t)
        × (made_of made e ≡ made_of made t)
    Fits (any_to d i) r = In next d × AnyFits d i r
    Fits (all_to d i) r = In next d × AllFits d i r
    Fits (user n) r = User n r

    -- Callbacks that wait for a result that satisfies `Q`.
    abbrev pub Wait : (Result V Err → Type 0) → List (Callback V) → Type 0
    Wait Q = All (λ callback. (r : Result V Err) → Q r → Fits callback r)

    abbrev pub GoodOnce :
        {T : Type 0}
        → (Result T Err → Result V Err)
        → (Result V Err → Type 0)
        → WriteOnceCell (Callback V) T Err
        → Type 0
    GoodOnce {T} embed Q k =
        ((r : Result T Err) → k.value ≡ some r → Q (embed r)) × Wait Q k.callbacks

    abbrev pub Good : Ref → ICell V Err → Type 0
    Good c (once k) = GoodOnce (λ r. r) (May c) k
    Good c (tracking t) =
        ((d : Ref)
          → t.cell ≡ some d
          → In next d × ((r : Result V Err) → May d r → May c r) × Leads c d (made_of made c))
        × Wait (May c) t.callbacks
    Good c (any k) = GoodOnce (λ r. r) (May c) k.underlying_cell
    Good c (all k) = GoodOnce (packed pack) (May c) k.underlying_cell

    abbrev pub WorkFits : Work V Err → Type 0
    WorkFits (call callback r) = Fits callback r
    WorkFits (compute d v) = In next d × May d (value v)

    abbrev pub JobFits : Job V Err → Type 0
    JobFits j = WorkFits j.work

    pub record Sound (s : Store V Err) : Type 0 where
      pub cells : (c : Ref) → In next c → Good c (s.cells c)
      pub jobs : All JobFits s.jobs
      pub log : All (λ e. User e.0 e.1) s.log
