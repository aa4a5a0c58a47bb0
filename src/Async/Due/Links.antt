-- ===== src/Async/Due/Links.antt =====
-- Which operations leave alone what cells track.
use async_ery.Base.{
  ℕ, zero, suc, ◌≡◌, ◌⊎◌, inl, inr, refl, sym, ◌∙◌, ap, Option, none, some, List, [], ◌∷◌,
}
use mathlib.Core.Option.{some-injective}
use async_ery.Cell.Result.{Result}
use async_ery.Cell.WriteOnce.{write_result_to_value}
use async_ery.Cell.WriteOnce
use async_ery.Cell.TrackingOnce.{TrackingOnceCell, hold, track_at}
use async_ery.Cell.TrackingOnce
use async_ery.Cell.WhenAny
use async_ery.Cell.WhenAll
use async_ery.Scheduler.Context.{Context}
use async_ery.Async.Store.{
  Ref, Callback, ICell, once, tracking, any, all, Store, put, await, await_cell, await_each, track,
  track_cell, write, write_cell, report_any, report_any_cell, report_all, report_all_cell,
}
use async_ery.Async.Later.{follower, kind, follows}
use async_ery.Async.Owed.Change.{put_rule, put_here}

module _ {V Err : Type 0} where
  -- Every cell tracks what it tracked.
  abbrev pub Still : Store V Err → Store V Err → Type 0
  Still s s' = (b : Ref) → follows (s'.cells b) ≡ follows (s.cells b)

  put-Still :
      (s : Store V Err) (c : Ref) (x x' : ICell V Err)
      → s.cells c ≡ x
      → follows x' ≡ follows x
      → Still s (put s c x')
  put-Still s c x x' same e =
      put_rule s c x' (λ a y. follows y ≡ follows (s.cells a)) (e ∙ ap follows (sym same))
        (λ a n. refl)

  module _ (pack : List V → V) where
    await_cell-Still :
        (x : ICell V Err) (rest : Ref → Store V Err) (s : Store V Err) (c : Ref)
        (callback : Callback V)
        → s.cells c ≡ x
        → ((d : Ref) → Still s (rest d))
        → Still s (await_cell pack x rest s c callback)
    unfolding await_cell hold
    await_cell-Still (once k) rest s c callback same go =
        put-Still s c (once k) (once (WriteOnce.await k callback).0) same refl
    await_cell-Still (any k) rest s c callback same go =
        put-Still s c (any k)
          (any (record k { underlying_cell = (WriteOnce.await k.underlying_cell callback).0 })) same
          refl
    await_cell-Still (all k) rest s c callback same go =
        put-Still s c (all k)
          (all (record k { underlying_cell = (WriteOnce.await k.underlying_cell callback).0 })) same
          refl
    await_cell-Still (tracking t) rest s c callback same go = at t.cell
      where
        at :
            (o : Option Ref)
            → Still s (elim o [ some d ↦ rest d | none ↦ put s c (tracking (hold t callback)) ])
        at (some d) = go d
        at none = put-Still s c (tracking t) (tracking (hold t callback)) same refl

    pub await-Still :
        (fuel : ℕ) (s : Store V Err) (c : Ref) (callback : Callback V)
        → Still s (await pack fuel s c callback)
    unfolding await
    await-Still zero s c callback = λ b. refl
    await-Still (suc fuel) s c callback =
        await_cell-Still (s.cells c) (λ d. await pack fuel s d callback) s c callback refl
          (λ d. await-Still fuel s d callback)

    await_each-Still :
        (fuel : ℕ) (s : Store V Err) (d : Ref) (callbacks : List (Callback V))
        → Still s (await_each pack fuel s d callbacks)
    unfolding await_each
    await_each-Still fuel s d [] = λ b. refl
    await_each-Still fuel s d (callback ∷ callbacks) = λ b.
        await_each-Still fuel (await pack fuel s d callback) d callbacks b
        ∙ await-Still fuel s d callback b

    write_cell-Still :
        (x : ICell V Err) (s : Store V Err) (ctx : Context) (c : Ref) (r : Result V Err)
        → s.cells c ≡ x
        → Still s (write_cell pack x s ctx c r)
    unfolding write_cell
    write_cell-Still (once k) s ctx c r same =
        put-Still s c (once k) (once (write_result_to_value k ctx r).1) same refl
    write_cell-Still (tracking t) s ctx c r same = λ b. refl
    write_cell-Still (any k) s ctx c r same = λ b. refl
    write_cell-Still (all k) s ctx c r same = λ b. refl

    pub write-Still :
        (s : Store V Err) (ctx : Context) (c : Ref) (r : Result V Err)
        → Still s (write pack s ctx c r)
    unfolding write
    write-Still s ctx c r = write_cell-Still (s.cells c) s ctx c r refl

    report_any_cell-Still :
        (x : ICell V Err) (s : Store V Err) (ctx : Context) (c : Ref) (r : Result V Err)
        → s.cells c ≡ x
        → Still s (report_any_cell pack x s ctx c r)
    unfolding report_any_cell
    report_any_cell-Still (any k) s ctx c r same =
        put-Still s c (any k) (any (WhenAny.on_result k ctx r).0) same refl
    report_any_cell-Still (tracking t) s ctx c r same = λ b. refl
    report_any_cell-Still (once k) s ctx c r same = λ b. refl
    report_any_cell-Still (all k) s ctx c r same = λ b. refl

    pub report_any-Still :
        (s : Store V Err) (ctx : Context) (c : Ref) (r : Result V Err)
        → Still s (report_any pack s ctx c r)
    unfolding report_any
    report_any-Still s ctx c r = report_any_cell-Still (s.cells c) s ctx c r refl

    report_all_cell-Still :
        (x : ICell V Err) (s : Store V Err) (ctx : Context) (c : Ref) (i : ℕ) (r : Result V Err)
        → s.cells c ≡ x
        → Still s (report_all_cell pack x s ctx c i r)
    unfolding report_all_cell
    report_all_cell-Still (all k) s ctx c i r same =
        put-Still s c (all k) (all (WhenAll.on_result k ctx i r).0) same refl
    report_all_cell-Still (tracking t) s ctx c i r same = λ b. refl
    report_all_cell-Still (once k) s ctx c i r same = λ b. refl
    report_all_cell-Still (any k) s ctx c i r same = λ b. refl

    pub report_all-Still :
        (s : Store V Err) (ctx : Context) (c : Ref) (i : ℕ) (r : Result V Err)
        → Still s (report_all pack s ctx c i r)
    unfolding report_all
    report_all-Still s ctx c i r = report_all_cell-Still (s.cells c) s ctx c i r refl

    -- What a cell tracks after a `track` of `c`: what it tracked, or `c` tracks the new cell.
    abbrev Tracks : Store V Err → Store V Err → Ref → Ref → Type 0
    Tracks s s' c new_cell =
        (b d : Ref)
        → follows (s'.cells b) ≡ some d
        → (follows (s.cells b) ≡ some d) ⊎ ((c ≡ b) × (new_cell ≡ d))

    track_cell-Tracks :
        (x : ICell V Err) (fuel : ℕ) (s : Store V Err) (c new_cell : Ref)
        → s.cells c ≡ x
        → Tracks s (track_cell pack x fuel s c new_cell) c new_cell
    unfolding track_cell TrackingOnce.track
    track_cell-Tracks (once k) fuel s c new_cell same = λ b d e. inl e
    track_cell-Tracks (any k) fuel s c new_cell same = λ b d e. inl e
    track_cell-Tracks (all k) fuel s c new_cell same = λ b d e. inl e
    track_cell-Tracks (tracking t) fuel s c new_cell same = at t.cell refl
      where
        at :
            (o : Option Ref)
            → t.cell ≡ o
            → let (ok, t', callbacks) = track_at o t new_cell in
              Tracks s (await_each pack fuel (put s c (tracking t')) new_cell callbacks) c new_cell
        at (some old) e = λ b d f. inl (
            sym (
              await_each-Still fuel (put s c (tracking t)) new_cell [] b
              ∙ put-Still s c (tracking t) (tracking t) same refl b)
            ∙ f)
        at none e = λ b d f.
            let t' : TrackingOnceCell (Callback V) Ref = record {
              cell = some new_cell;
              callbacks = [];
            } in
            put_rule s c (tracking t')
              (λ a y.
                follows y ≡ some d → (follows (s.cells a) ≡ some d) ⊎ ((c ≡ a) × (new_cell ≡ d)))
              (λ g. inr (refl, some-injective new_cell d g)) (λ a n g. inl g) b
              (sym (await_each-Still fuel (put s c (tracking t')) new_cell t.callbacks b) ∙ f)

    pub track-Tracks :
        (fuel : ℕ) (s : Store V Err) (c new_cell : Ref)
        → Tracks s (track pack fuel s c new_cell) c new_cell
    unfolding track
    track-Tracks fuel s c new_cell = track_cell-Tracks (s.cells c) fuel s c new_cell refl

    -- A cell that can track tracks something afterwards.
    track_cell-follows :
        (x : ICell V Err) (fuel : ℕ) (s : Store V Err) (c new_cell : Ref)
        → s.cells c ≡ x
        → kind x ≡ follower
        → (d : Ref) × (follows ((track_cell pack x fuel s c new_cell).cells c) ≡ some d)
    unfolding track_cell TrackingOnce.track
    track_cell-follows (once k) fuel s c new_cell same e = absurd (cc e)
    track_cell-follows (any k) fuel s c new_cell same e = absurd (cc e)
    track_cell-follows (all k) fuel s c new_cell same e = absurd (cc e)
    track_cell-follows (tracking t) fuel s c new_cell same e = at t.cell refl
      where
        at :
            (o : Option Ref)
            → t.cell ≡ o
            → let (ok, t', callbacks) = track_at o t new_cell in
              (d : Ref) × (follows
                  ((await_each pack fuel (put s c (tracking t')) new_cell callbacks).cells c)
                ≡ some d)
        at (some old) f = (
          old,
          await_each-Still fuel (put s c (tracking t)) new_cell [] c
              ∙ ap follows (put_here s c (tracking t))
              ∙ f,
        )
        at none f =
            let t' : TrackingOnceCell (Callback V) Ref = record {
              cell = some new_cell;
              callbacks = [];
            } in
            (
              new_cell,
              await_each-Still fuel (put s c (tracking t')) new_cell t.callbacks c
                  ∙ ap follows (put_here s c (tracking t')),
            )

    pub track-follows :
        (fuel : ℕ) (s : Store V Err) (c new_cell : Ref)
        → kind (s.cells c) ≡ follower
        → (d : Ref) × (follows ((track pack fuel s c new_cell).cells c) ≡ some d)
    unfolding track
    track-follows fuel s c new_cell e = track_cell-follows (s.cells c) fuel s c new_cell refl e
