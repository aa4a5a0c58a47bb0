-- ===== src/Async/Owed/Tracking.antt =====
-- Tracking a cell loses no callback: those that wait are handed on to the tracked cell.
use async_ery.Base.{
  ℕ, ◌⊎◌, suc, ◌≡◌, inl, inr, refl, sym, subst, Option, none, some, List, [], ◌∷◌, Mem,
}
use mathlib.Core.Option.{none-ne-some, some-injective}
use async_ery.Cell.TrackingOnce.{TrackingOnceCell, track_at}
use async_ery.Cell.TrackingOnce
use async_ery.Async.Store.{
  Ref, Callback, ICell, once, tracking, any, all, Store, put, await, await_each, track, track_cell,
}
use async_ery.Async.Later.{follows, Later, Later-refl, Later-trans, tracking-Later}
use async_ery.Async.Sound.{In, Above}
use async_ery.Async.Owed.{
  held, Owed, Tidy, Climbs, Linked, Keeping, Keeping-refl, Keeping-trans, keep-Owed, follow-Owed,
}
use async_ery.Async.Owed.Change.{
  Suffices, enough, changed_keeps, put_links, put_here, put_rule, queue_nothing,
}
use async_ery.Async.Owed.Await.{await-Awaited}

module _ {V Err : Type 0} (pack : List V → V) (next : ℕ) where
  -- The loop of `track`.
  await_each-Awaited :
      (fuel : ℕ) (s : Store V Err) (d : Ref) (callbacks : List (Callback V))
      → Linked next s
      → In next d
      → Suffices next fuel d
      → Keeping next s (await_each pack fuel s d callbacks)
        × ((callback : Callback V)
            → Mem callback callbacks
            → Owed (await_each pack fuel s d callbacks) d callback)
  unfolding await_each
  await_each-Awaited fuel s d [] l i h = (Keeping-refl next s l, λ callback m. absurd m)
  await_each-Awaited fuel s d (b ∷ callbacks) l i h =
      let a = await-Awaited pack next fuel s d b l i h in
      let rest = await_each-Awaited fuel (await pack fuel s d b) d callbacks a.0.linked i h in
      (
        Keeping-trans a.0 rest.0,
        λ callback m. elim m [
          | inl e ↦
              subst (Owed (await_each pack fuel (await pack fuel s d b) d callbacks) d) e
                (keep-Owed a.0.linked rest.0 i a.1)
          | inr n ↦ rest.1 callback n
        ],
      )

  -- The first cell that is tracked takes over the callbacks.
  track_first-Keeping :
      (t : TrackingOnceCell (Callback V) Ref) (fuel : ℕ) (s : Store V Err) (c d : Ref)
      → s.cells c ≡ tracking t
      → t.cell ≡ none
      → Linked next s
      → In next c
      → In next d
      → Above c d
      → Suffices next fuel d
      → Keeping next s (
          await_each pack fuel
            (put s c (tracking (record { cell = some d; callbacks = [] })))
            d
            t.callbacks)
  track_first-Keeping t fuel s c d same empty l i j up h =
      let x' = tracking (record { cell = some d; callbacks = [] }) in
      let s1 = put s c x' in
      let l1 =
        put_links next s c x' l
          (λ d' e. subst (λ a. In next a × Above c a) (some-injective d d' e) (j, up))
          (λ d' e. refl) in
      let a = await_each-Awaited fuel s1 d t.callbacks l1 j h in
      let s2 = await_each pack fuel s1 d t.callbacks in
      let link : follows (s2.cells c) ≡ some d =
        (a.0.later c i).links d (subst (λ y. follows y ≡ some d) (sym (put_here s c x')) refl) in
      record {
        linked = a.0.linked;
        later = λ b k.
            Later-trans
              (put_rule s c x' (λ r y. Later (s.cells r) y)
                (subst (λ y. Later y x') (sym same)
                  (tracking-Later t (record { cell = some d; callbacks = [] })
                    (λ e f. absurd (none-ne-some e (subst (λ o. o ≡ some e) empty f)))))
                (λ r e. Later-refl (s.cells r)) b)
              (a.0.later b k);
        kept = λ b callback k m.
            elim (put_rule s c x'
              (λ r y.
                Mem callback (held (s.cells r))
                → Mem callback (held y) ⊎ ((c ≡ r) × Mem callback t.callbacks))
              (λ n. inr (refl, subst (λ y. Mem callback (held y)) same n)) (λ r e n. inl n) b m) [
                | inl n ↦ a.0.kept b callback k n
                | inr (eq, n) ↦
                    subst (λ r. Owed s2 r callback) eq (follow-Owed {s' = s2} link (a.1 callback n))
              ];
        queued = λ callback q. a.0.queued callback q;
        computing = a.0.computing;
        log_same = a.0.log_same;
      }

  track_cell-Keeping :
      (x : ICell V Err) (fuel : ℕ) (s : Store V Err) (c d : Ref)
      → s.cells c ≡ x
      → Linked next s
      → In next c
      → In next d
      → Above c d
      → Suffices next fuel d
      → Keeping next s (track_cell pack x fuel s c d)
  unfolding track_cell TrackingOnce.track await_each
  track_cell-Keeping (tracking t) fuel s c d same l i j up h = at t.cell refl
    where
      at :
          (o : Option Ref)
          → t.cell ≡ o
          → let (ok, t', callbacks) = track_at o t d in
            Keeping next s (await_each pack fuel (put s c (tracking t')) d callbacks)
      at (some old) e = subst (Keeping next s) (queue_nothing (put s c (tracking t))) (
          changed_keeps next s c (tracking t) l (tracking t) [] same
            (subst (Climbs next c) same (l.climbs c i)) (subst Tidy same (l.tidy c i))
            (λ b m. inl m) (Later-refl (tracking t)))
      at none e = track_first-Keeping t fuel s c d same e l i j up h
  track_cell-Keeping (once k) fuel s c d same l i j up h = Keeping-refl next s l
  track_cell-Keeping (any k) fuel s c d same l i j up h = Keeping-refl next s l
  track_cell-Keeping (all k) fuel s c d same l i j up h = Keeping-refl next s l

  pub track-Keeping :
      (s : Store V Err) (c d : Ref)
      → Linked next s
      → In next c
      → In next d
      → Above c d
      → Keeping next s (track pack (suc next) s c d)
  unfolding track
  track-Keeping s c d l i j up =
      track_cell-Keeping (s.cells c) (suc next) s c d refl l i j up (enough next d)
