-- ===== src/Async/Due.antt =====
-- What each cell that was allocated is still due: why it has no value yet, by the expression that it
-- stands for.
pub mod Counting
mod Effects
mod Carry
mod Links
pub mod Register
mod Makes
mod Joined
mod Build
mod Runs
pub mod Jobs
pub mod Histories
pub mod Live
pub mod Settled
use async_ery.Base.{
  ℕ, zero, suc, ◌+◌, ◌^◌, ◌≡◌, ◌≤◌, ◌<◌, ◌⊎◌, Bool, true, Option, some, List, if◌then◌else◌,
}
use async_ery.Async.Program.{Prog, Progs, how_many, prog_at}
use async_ery.Async.Store.{
  Ref, source, cell, Callback, map_to, bind_to, any_to, all_to, ICell, Store,
}
use async_ery.Async.Task.{World, program_of}
use async_ery.Async.Later.{
  Kind, write_once, follower, first_of, every_of, kind, follows, valued, heard, expected,
}
use async_ery.Async.Sound.{In, after}
use async_ery.Async.Owed.{Owed, Computing}

-- A vector of tasks that is not empty and whose length is a `size_t`.
abbrev pub IsProper : {V : Type 0} → Progs V → Type 0
IsProper ps = (0 < how_many ps) × how_many ps < 2 ^ 64

abbrev pub counted : (ℕ → Bool) → ℕ → ℕ
counted reported zero = 0
counted reported (suc n) = (if reported n then 1 else 0) + counted reported n

-- The cell of a task; the error cell of a `bind` is not.
abbrev pub IsTaskCell : {V : Type 0} → Prog V → Kind → Type 0
IsTaskCell (Prog.source k) a = Unit
IsTaskCell (Prog.create v) a = Unit
IsTaskCell (Prog.map p f) a = Unit
IsTaskCell (Prog.bind p f) a = a ≡ follower
IsTaskCell (Prog.when_any ps) a = Unit
IsTaskCell (Prog.when_all ps) a = Unit

module _ {V Err : Type 0} where
  module _ (w : World V Err) where
    abbrev pub IsTask : Ref → Type 0
    IsTask (source k) = Unit
    IsTask (cell n) = (n < w.next) × IsTaskCell (w.made n) (kind (w.store.cells (cell n)))

    pub task-In : (c : Ref) → IsTask c → In w.next c
    task-In (source k) t = tt
    task-In (cell n) t = t.0

    -- A callback is owed by a task that stands for `q`.
    abbrev pub Parent : Prog V → Callback V → Type 0
    Parent q callback = (c : Ref) × IsTask c × (program_of w c ≡ q) × Owed w.store c callback

    -- What a `bind` tracks: a task of its function, or its error cell, which has its error.
    abbrev pub Target : (V → Prog V) → Ref → Type 0
    Target f d =
        (IsTask d × ((v : V) × (program_of w d ≡ f v)))
        ⊎ (In w.next d × (valued (w.store.cells d) ≡ true))

    -- The cell of a `bind` tracks its target, or its parent owes it the callback.
    pub record Binding (c : Ref) (x : ICell V Err) (q : Prog V) (f : V → Prog V) : Type 0 where
      pub same_kind : kind x ≡ follower
      pub error_in : In w.next (after c)
      pub error_kind : kind (w.store.cells (after c)) ≡ write_once
      pub target : (d : Ref) → follows x ≡ some d → Target f d
      pub next_step : ((d : Ref) × (follows x ≡ some d)) ⊎ Parent q (bind_to c (after c) f)

    -- A joined cell has fewer reports than it expects, and the others are still owed.
    pub record Waiting (report : ℕ → Callback V) (x : ICell V Err) (ps : Progs V) : Type 0 where
      pub total : expected x ≡ how_many ps
      pub some_left : heard x < expected x
      pub reported : ℕ → Bool
      pub enough_heard : counted reported (how_many ps) ≤ heard x
      pub rest : (i : ℕ) → i < how_many ps → (reported i ≡ true) ⊎ Parent (prog_at ps i) (report i)

    abbrev pub Due : Ref → ICell V Err → Prog V → Type 0
    Due c x (Prog.source k) = ⊥
    Due c x (Prog.create v) =
        (kind x ≡ write_once) × ((valued x ≡ true) ⊎ Computing c v w.store.jobs)
    Due c x (Prog.map q f) = (kind x ≡ write_once) × ((valued x ≡ true) ⊎ Parent q (map_to c f))
    Due c x (Prog.bind q f) = (kind x ≡ write_once) ⊎ Binding c x q f
    Due c x (Prog.when_any ps) =
        (kind x ≡ first_of) × (IsProper ps → (valued x ≡ true) ⊎ Waiting (any_to c) x ps)
    Due c x (Prog.when_all ps) =
        (kind x ≡ every_of) × (IsProper ps → (valued x ≡ true) ⊎ Waiting (all_to c) x ps)

    -- The cells from number `from` on are due.
    abbrev pub AllDue : ℕ → Type 0
    AllDue from = (n : ℕ) → from ≤ n → n < w.next → Due (cell n) (w.store.cells (cell n)) (w.made n)
