-- ===== src/Async/Owed.antt =====
-- Which callbacks the store still owes a call: those that wait in a cell, and those that are queued.
pub mod Change
pub mod Await
pub mod Writes
pub mod Tracking
pub mod Worlds
pub mod Makes
pub mod Jobs
pub mod Served
pub mod Quiet
use async_ery.Base.{
  ℕ, ◌≡◌, ◌⊎◌, inl, inr, refl, sym, ◌∙◌, ◌<◌, Option, none, some, List, [], ◌∷◌, ◌++◌, Mem, map,
  append-Mem,
}
use mathlib.Core.Option.{none-ne-some}
use async_ery.Cell.Result.{Result}
use async_ery.Cell.WriteOnce.{Delivery}
use async_ery.Cell.WriteOnce.Lossless.{Called, IsTidy}
use async_ery.Async.Store.{
  Ref, source, cell, Callback, ICell, once, tracking, any, all, Work, call, compute, Job, Store,
  job_of, packed_job_of,
}
use async_ery.Async.Later.{follows, Later, Later-refl, Later-trans}
use async_ery.Async.Sound.{In, Above}

module _ {V Err : Type 0} where
  -- The callbacks that a cell holds.
  abbrev pub held : ICell V Err → List (Callback V)
  held (once k) = k.callbacks
  held (tracking t) = t.callbacks
  held (any k) = k.underlying_cell.callbacks
  held (all k) = k.underlying_cell.callbacks

  -- A callback waits in a cell or in one that it tracks, on and on.
  pub data Waits (s : Store V Err) : Ref → Callback V → Type 0 where
    here : {c : Ref} {callback : Callback V} → Mem callback (held (s.cells c)) → Waits s c callback
    there :
        {c : Ref} {callback : Callback V} (d : Ref)
        → follows (s.cells c) ≡ some d
        → Waits s d callback
        → Waits s c callback

  abbrev pub Calls : Callback V → Work V Err → Type 0
  Calls callback (call other r) = other ≡ callback
  Calls callback (compute d v) = ⊥

  abbrev pub Computes : Ref → V → Work V Err → Type 0
  Computes c v (call other r) = ⊥
  Computes c v (compute d u) = (d ≡ c) × (u ≡ v)

  abbrev pub AnyJob : (Work V Err → Type 0) → List (Job V Err) → Type 0
  AnyJob P [] = ⊥
  AnyJob P (j ∷ jobs) = P j.work ⊎ AnyJob P jobs

  abbrev pub Queued : Callback V → List (Job V Err) → Type 0
  Queued callback = AnyJob (Calls callback)

  abbrev pub Computing : Ref → V → List (Job V Err) → Type 0
  Computing c v = AnyJob (Computes c v)

  abbrev pub Owed : Store V Err → Ref → Callback V → Type 0
  Owed s c callback = Waits s c callback ⊎ Queued callback s.jobs

  -- A cell with a value, or one that tracks a cell, holds no callbacks.
  abbrev pub Tidy : ICell V Err → Type 0
  Tidy (once k) = IsTidy k
  Tidy (tracking t) = (d : Ref) → t.cell ≡ some d → t.callbacks ≡ []
  Tidy (any k) = IsTidy k.underlying_cell
  Tidy (all k) = IsTidy k.underlying_cell

  -- A tracked cell is allocated after the cell that tracks it.
  abbrev pub Climbs : ℕ → Ref → ICell V Err → Type 0
  Climbs next c x = (d : Ref) → follows x ≡ some d → In next d × Above c d

  pub record Linked (next : ℕ) (s : Store V Err) : Type 0 where
    pub climbs : (c : Ref) → In next c → Climbs next c (s.cells c)
    pub tidy : (c : Ref) → In next c → Tidy (s.cells c)

  -- From one store to the other no callback is lost.
  pub record Keeping (next : ℕ) (s s' : Store V Err) : Type 0 where
    pub linked : Linked next s'
    pub later : (c : Ref) → In next c → Later (s.cells c) (s'.cells c)
    pub kept :
        (c : Ref) (callback : Callback V)
        → In next c
        → Mem callback (held (s.cells c))
        → Owed s' c callback
    pub queued : (callback : Callback V) → Queued callback s.jobs → Queued callback s'.jobs
    pub computing : (c : Ref) (v : V) → Computing c v s.jobs → Computing c v s'.jobs
    pub log_same : s'.log ≡ s.log

  pub follow-Owed :
      {s' : Store V Err} {c d : Ref} {callback : Callback V}
      → follows (s'.cells c) ≡ some d
      → Owed s' d callback
      → Owed s' c callback
  follow-Owed {d = d} e (inl w) = inl (there d e w)
  follow-Owed e (inr q) = inr q

  pub carry-Owed :
      {next : ℕ} {s s' : Store V Err} {c : Ref} {callback : Callback V}
      → Linked next s
      → ((c : Ref) → In next c → Later (s.cells c) (s'.cells c))
      → ((c : Ref) (callback : Callback V)
          → In next c
          → Mem callback (held (s.cells c))
          → Owed s' c callback)
      → ((callback : Callback V) → Queued callback s.jobs → Queued callback s'.jobs)
      → In next c
      → Owed s c callback
      → Owed s' c callback
  carry-Owed {c = c} {callback = callback} l later kept queued i (inl (here m)) =
      kept c callback i m
  carry-Owed {s' = s'} {c = c} l later kept queued i (inl (there d e w)) =
      follow-Owed {s' = s'} ((later c i).links d e)
        (carry-Owed l later kept queued (l.climbs c i d e).0 (inl w))
  carry-Owed {callback = callback} l later kept queued i (inr q) = inr (queued callback q)

  pub keep-Owed :
      {next : ℕ} {s s' : Store V Err} {c : Ref} {callback : Callback V}
      → Linked next s
      → Keeping next s s'
      → In next c
      → Owed s c callback
      → Owed s' c callback
  keep-Owed l k i owed = carry-Owed l k.later k.kept k.queued i owed

  pub Keeping-refl : (next : ℕ) (s : Store V Err) → Linked next s → Keeping next s s
  Keeping-refl next s l = record {
    linked = l;
    later = λ c i. Later-refl (s.cells c);
    kept = λ c callback i m. inl (here m);
    queued = λ callback q. q;
    computing = λ c v q. q;
    log_same = refl;
  }

  pub Keeping-trans :
      {next : ℕ} {s t u : Store V Err} → Keeping next s t → Keeping next t u → Keeping next s u
  Keeping-trans k k' = record {
    linked = k'.linked;
    later = λ c i. Later-trans (k.later c i) (k'.later c i);
    kept = λ c callback i m. keep-Owed k.linked k' i (k.kept c callback i m);
    queued = λ callback q. k'.queued callback (k.queued callback q);
    computing = λ c v q. k'.computing c v (k.computing c v q);
    log_same = k'.log_same ∙ k.log_same;
  }

  pub append-AnyJob :
      (P : Work V Err → Type 0) (xs ys : List (Job V Err))
      → AnyJob P xs ⊎ AnyJob P ys
      → AnyJob P (xs ++ ys)
  append-AnyJob P [] ys (inr q) = q
  append-AnyJob P [] ys (inl q) = absurd q
  append-AnyJob P (x ∷ xs) ys (inl (inl e)) = inl e
  append-AnyJob P (x ∷ xs) ys (inl (inr q)) = inr (append-AnyJob P xs ys (inl q))
  append-AnyJob P (x ∷ xs) ys (inr q) = inr (append-AnyJob P xs ys (inr q))

  pub job_of-Queued :
      (callback : Callback V) (calls : List (Delivery (Callback V) V Err))
      → Called callback calls
      → Queued callback (map job_of calls)
  job_of-Queued callback [] m = absurd m
  job_of-Queued callback (d ∷ calls) (inl e) = inl e
  job_of-Queued callback (d ∷ calls) (inr m) = inr (job_of-Queued callback calls m)

  pub packed_job_of-Queued :
      (pack : List V → V) (callback : Callback V)
      (calls : List (Delivery (Callback V) (List V) Err))
      → Called callback calls
      → Queued callback (map (packed_job_of pack) calls)
  packed_job_of-Queued pack callback [] m = absurd m
  packed_job_of-Queued pack callback (d ∷ calls) (inl e) = inl e
  packed_job_of-Queued pack callback (d ∷ calls) (inr m) =
      inr (packed_job_of-Queued pack callback calls m)
