-- ===== src/Async/Owed/Await.antt =====
-- `await` loses no callback, and the callback that it is given is owed afterwards.
use async_ery.Base.{
  ℕ, zero, suc, ◌≡◌, ◌⊎◌, inl, inr, refl, sym, subst, Option, none, some, List, [], ◌∷◌, map, Mem,
  append-Mem, last-Mem, arith,
}
use mathlib.Core.Option.{none-ne-some}
use async_ery.Cell.WriteOnce.{Delivery, WriteOnceCell}
use async_ery.Cell.WriteOnce
use async_ery.Cell.WriteOnce.Lossless.{Called, await-Lossless}
use async_ery.Cell.TrackingOnce.{hold}
use async_ery.Async.Store.{
  Ref, source, cell, Callback, ICell, once, tracking, any, all, Store, put, job_of, packed_job_of,
  await, await_cell,
}
use async_ery.Async.Later.{follows, once-Later, tracking-Later, any-Later, all-Later}
use async_ery.Async.Sound.{In}
use async_ery.Async.Owed.{
  follows, Queued, Owed, Tidy, Climbs, Linked, Keeping, follow-Owed, job_of-Queued,
  packed_job_of-Queued,
}
use async_ery.Async.Owed.Change.{Suffices, further, changed_keeps, changed-Owed, queue_nothing}

module _ {V Err : Type 0} (pack : List V → V) (next : ℕ) where
  -- A call of a cell becomes a job.
  pub as_job :
      (callback : Callback V) (callbacks : List (Callback V))
      (calls : List (Delivery (Callback V) V Err))
      → Mem callback callbacks ⊎ Called callback calls
      → Mem callback callbacks ⊎ Queued callback (map job_of calls)
  as_job callback callbacks calls (inl m) = inl m
  as_job callback callbacks calls (inr m) = inr (job_of-Queued callback calls m)

  pub as_packed_job :
      (callback : Callback V) (callbacks : List (Callback V))
      (calls : List (Delivery (Callback V) (List V) Err))
      → Mem callback callbacks ⊎ Called callback calls
      → Mem callback callbacks ⊎ Queued callback (map (packed_job_of pack) calls)
  as_packed_job callback callbacks calls (inl m) = inl m
  as_packed_job callback callbacks calls (inr m) = inr (packed_job_of-Queued pack callback calls m)

  -- What is known of the store after `await`.
  abbrev pub Awaited : Store V Err → Ref → Callback V → Store V Err → Type 0
  Awaited s c callback s' = Keeping next s s' × Owed s' c callback

  await_cell-Awaited :
      (x : ICell V Err) (rest : Ref → Store V Err) (s : Store V Err) (c : Ref)
      (callback : Callback V)
      → s.cells c ≡ x
      → Linked next s
      → Tidy x
      → Climbs next c x
      → In next c
      → ((d : Ref) → follows x ≡ some d → Awaited s d callback (rest d))
      → Awaited s c callback (await_cell pack x rest s c callback)
  unfolding await_cell hold
  await_cell-Awaited (once k) rest s c callback same l tidy up i go =
      let a = await-Lossless k callback in
      let k' = (WriteOnce.await k callback).0 in
      let calls = (WriteOnce.await k callback).1 in
      (
        changed_keeps next s c (once k') l (once k) (map job_of calls) same
            (λ d e. absurd (none-ne-some d e)) (a.0.tidy tidy)
            (λ b m. as_job b k'.callbacks calls (a.0.kept b m)) (once-Later k k' a.0.stays),
        changed-Owed next s c (once k') l (map job_of calls) callback
            (as_job callback k'.callbacks calls a.1),
      )
  await_cell-Awaited (any k) rest s c callback same l tidy up i go =
      let a = await-Lossless k.underlying_cell callback in
      let cell' = (WriteOnce.await k.underlying_cell callback).0 in
      let x' = any (record k { underlying_cell = cell' }) in
      let calls = (WriteOnce.await k.underlying_cell callback).1 in
      (
        changed_keeps next s c x' l (any k) (map job_of calls) same
            (λ d e. absurd (none-ne-some d e)) (a.0.tidy tidy)
            (λ b m. as_job b cell'.callbacks calls (a.0.kept b m)) (any-Later k cell' a.0.stays),
        changed-Owed next s c x' l (map job_of calls) callback
            (as_job callback cell'.callbacks calls a.1),
      )
  await_cell-Awaited (all k) rest s c callback same l tidy up i go =
      let a = await-Lossless k.underlying_cell callback in
      let cell' = (WriteOnce.await k.underlying_cell callback).0 in
      let x' = all (record k { underlying_cell = cell' }) in
      let calls = (WriteOnce.await k.underlying_cell callback).1 in
      (
        changed_keeps next s c x' l (all k) (map (packed_job_of pack) calls) same
            (λ d e. absurd (none-ne-some d e)) (a.0.tidy tidy)
            (λ b m. as_packed_job b cell'.callbacks calls (a.0.kept b m))
            (all-Later k cell' a.0.stays),
        changed-Owed next s c x' l (map (packed_job_of pack) calls) callback
            (as_packed_job callback cell'.callbacks calls a.1),
      )
  await_cell-Awaited (tracking t) rest s c callback same l tidy up i go = at t.cell refl
    where
      at :
          (o : Option Ref)
          → t.cell ≡ o
          → Awaited s c callback
              (elim o [ some d ↦ rest d | none ↦ put s c (tracking (hold t callback)) ])
      at (some d) e =
          let r = go d e in
          (
            r.0,
            follow-Owed ((r.0.later c i).links d (subst (λ y. follows y ≡ some d) (sym same) e))
                r.1,
          )
      at none e =
          let x' = tracking (hold t callback) in
          subst (Awaited s c callback) (queue_nothing (put s c x')) (
            changed_keeps next s c x' l (tracking t) [] same up
                (λ d e'. absurd (none-ne-some d (subst (λ a. a ≡ some d) e e')))
                (λ b m. inl (append-Mem b t.callbacks (callback ∷ []) m))
                (tracking-Later t (hold t callback) (λ d e'. e')),
            changed-Owed next s c x' l [] callback (inl (last-Mem callback t.callbacks)),
          )

  pub await-Awaited :
      (fuel : ℕ) (s : Store V Err) (c : Ref) (callback : Callback V)
      → Linked next s
      → In next c
      → Suffices next fuel c
      → Awaited s c callback (await pack fuel s c callback)
  unfolding await
  await-Awaited zero s (source k) callback l i h = absurd (omega arith)
  await-Awaited zero s (cell n) callback l i h = absurd (omega arith)
  await-Awaited (suc fuel) s c callback l i h =
      await_cell-Awaited (s.cells c) (λ d. await pack fuel s d callback) s c callback refl l
        (l.tidy c i) (l.climbs c i) i
        (λ d e.
          let up = l.climbs c i d e in
          await-Awaited fuel s d callback l up.0 (further next fuel c d i up.0 up.1 h))
