-- ===== src/Async/Tokens/Steps.antt =====
-- How the operations on the store move callbacks, and that they leave the counts of joined cells alone.
use async_ery.Base.{
  ℕ, zero, suc, ◌+◌, ◌≡◌, ◌≤◌, inl, inr, refl, sym, ◌∙◌, ap, subst, Option, none, some, List, [],
  ◌∷◌, map, total, total-append, total-map, arith,
}
use async_ery.Cell.Result.{Result}
use async_ery.Cell.WriteOnce.{Delivery, WriteOnceCell, write_result_to_value}
use async_ery.Cell.WriteOnce
use async_ery.Cell.WriteOnce.Moves.{CellMoves, await-CellMoves, write-CellMoves}
use async_ery.Cell.TrackingOnce.{TrackingOnceCell, hold, track_at}
use async_ery.Cell.TrackingOnce
use async_ery.Cell.WhenAny.{WhenAnyExecutionContext}
use async_ery.Cell.WhenAll.{WhenAllExecutionContext}
use async_ery.Scheduler.Context.{Context}
use async_ery.Async.Store.{
  Ref, Callback, ICell, once, tracking, any, all, Store, put, queue, job_of, packed_job_of, await,
  await_cell, await_each, track, track_cell, write, write_cell,
}
use async_ery.Async.Owed.{held}
use async_ery.Async.Owed.Change.{put_rule, queue_nothing}
use async_ery.Async.Tokens.{load, job_load, Alone, Moves, more-Alone, changed-Alone, clear-Alone}

-- The counts of a joined cell.
pub data View (V : Type 0) : Type 0 where
  nothing : View V
  of_any : WhenAnyExecutionContext → View V
  of_all : WhenAllExecutionContext V → View V

module _ {V Err : Type 0} where
  abbrev pub view : ICell V Err → View V
  view (once k) = nothing
  view (tracking t) = nothing
  view (any k) = of_any k.exe_ctx
  view (all k) = of_all k.execution_context

  module _ (w : Callback V → ℕ) where
    -- `m` callbacks are new.
    pub record Op (m : ℕ) (s s' : Store V Err) : Type 0 where
      pub views : (b : Ref) → view (s'.cells b) ≡ view (s.cells b)
      pub alone : (n : ℕ) → n + m ≤ 1 → Alone w n s → Alone w (n + m) s'

    pub Op-refl : (s : Store V Err) → Op 0 s s
    Op-refl s = record {
      views = λ b. refl;
      alone = λ n le a. subst (λ k. Alone w k s) (omega arith) a;
    }

    pub Op-trans : {s t u : Store V Err} (m k : ℕ) → Op m s t → Op k t u → Op (m + k) s u
    Op-trans {u = u} m k p q = record {
      views = λ b. q.views b ∙ p.views b;
      alone = λ n le a.
          subst (λ j. Alone w j u) (omega arith)
            (q.alone (n + m) (omega arith) (p.alone n (omega arith) a));
    }

    pub changed-Op :
        (s : Store V Err) (c : Ref) (x x' : ICell V Err) (jobs : List _) (m : ℕ)
        → s.cells c ≡ x
        → view x' ≡ view x
        → Moves w m x x' jobs
        → Op m s (queue (put s c x') jobs)
    changed-Op s c x x' jobs m same e move = record {
      views = λ b.
          put_rule s c x' (λ a y. view y ≡ view (s.cells a)) (e ∙ ap view (sym same)) (λ a f. refl)
            b;
      alone = λ n le a. changed-Alone w s c x x' jobs same n m le move a;
    }

    pub job_of-Moves :
        (x x' : ICell V Err) (k k' : WriteOnceCell (Callback V) V Err) (m : ℕ)
        (calls : List (Delivery (Callback V) V Err))
        → held x ≡ k.callbacks
        → held x' ≡ k'.callbacks
        → CellMoves w m k k' calls
        → Moves w m x x' (map job_of calls)
    job_of-Moves x x' k k' m calls e e' move =
        let jobs = total-map (job_load w) job_of calls in
        let a = ap (total w) e in
        let b = ap (total w) e' in
        elim move [
          | inl (p, q) ↦ inl (omega arith, omega arith)
          | inr (inl (p, q)) ↦ inr (inl (omega arith, omega arith))
          | inr (inr (p, q)) ↦ inr (inr (omega arith, omega arith))
        ]

    pub packed_job_of-Moves :
        (pack : List V → V) (x x' : ICell V Err) (k k' : WriteOnceCell (Callback V) (List V) Err)
        (m : ℕ) (calls : List (Delivery (Callback V) (List V) Err))
        → held x ≡ k.callbacks
        → held x' ≡ k'.callbacks
        → CellMoves w m k k' calls
        → Moves w m x x' (map (packed_job_of pack) calls)
    packed_job_of-Moves pack x x' k k' m calls e e' move =
        let jobs = total-map (job_load w) (packed_job_of pack) calls in
        let a = ap (total w) e in
        let b = ap (total w) e' in
        elim move [
          | inl (p, q) ↦ inl (omega arith, omega arith)
          | inr (inl (p, q)) ↦ inr (inl (omega arith, omega arith))
          | inr (inr (p, q)) ↦ inr (inr (omega arith, omega arith))
        ]

    module _ (pack : List V → V) where
      await_cell-Op :
          (x : ICell V Err) (rest : Ref → Store V Err) (s : Store V Err) (c : Ref)
          (callback : Callback V)
          → s.cells c ≡ x
          → ((d : Ref) → Op (w callback) s (rest d))
          → Op (w callback) s (await_cell pack x rest s c callback)
      unfolding await_cell hold
      await_cell-Op (once k) rest s c callback same go =
          let k' = (WriteOnce.await k callback).0 in
          changed-Op s c (once k) (once k') _ (w callback) same refl (
            job_of-Moves (once k) (once k') k k' (w callback) (WriteOnce.await k callback).1 refl
              refl (await-CellMoves w k callback))
      await_cell-Op (any k) rest s c callback same go =
          let u = k.underlying_cell in
          let u' = (WriteOnce.await u callback).0 in
          let x' = any (record k { underlying_cell = u' }) in
          changed-Op s c (any k) x' _ (w callback) same refl (
            job_of-Moves (any k) x' u u' (w callback) (WriteOnce.await u callback).1 refl refl
              (await-CellMoves w u callback))
      await_cell-Op (all k) rest s c callback same go =
          let u = k.underlying_cell in
          let u' = (WriteOnce.await u callback).0 in
          let x' = all (record k { underlying_cell = u' }) in
          changed-Op s c (all k) x' _ (w callback) same refl (
            packed_job_of-Moves pack (all k) x' u u' (w callback) (WriteOnce.await u callback).1
              refl refl (await-CellMoves w u callback))
      await_cell-Op (tracking t) rest s c callback same go = at t.cell
        where
          at :
              (o : Option Ref)
              → Op
                  (w callback)
                  s
                  (elim o [ some d ↦ rest d | none ↦ put s c (tracking (hold t callback)) ])
          at (some d) = go d
          at none =
              let x' = tracking (hold t callback) in
              subst (Op (w callback) s) (queue_nothing (put s c x')) (
                changed-Op s c (tracking t) x' [] (w callback) same refl
                  (inl (refl, omega (arith, total-append w t.callbacks (callback ∷ [])))))

      -- A callback that is dropped for want of fuel is none that is new.
      pub await-Op :
          (fuel : ℕ) (s : Store V Err) (c : Ref) (callback : Callback V)
          → Op (w callback) s (await pack fuel s c callback)
      unfolding await
      await-Op zero s c callback = record {
        views = λ b. refl;
        alone = λ n le a. more-Alone w n (n + w callback) s (omega arith) a;
      }
      await-Op (suc fuel) s c callback =
          await_cell-Op (s.cells c) (λ d. await pack fuel s d callback) s c callback refl
            (λ d. await-Op fuel s d callback)

      await_each-Op :
          (fuel : ℕ) (s : Store V Err) (d : Ref) (callbacks : List (Callback V))
          → Op (total w callbacks) s (await_each pack fuel s d callbacks)
      unfolding await_each
      await_each-Op fuel s d [] = Op-refl s
      await_each-Op fuel s d (b ∷ callbacks) =
          Op-trans (w b) (total w callbacks) (await-Op fuel s d b)
            (await_each-Op fuel (await pack fuel s d b) d callbacks)

      track_first-Op :
          (t : TrackingOnceCell (Callback V) Ref) (fuel : ℕ) (s : Store V Err) (c d : Ref)
          → s.cells c ≡ tracking t
          → Op 0 s (
              await_each pack fuel
                (put s c (tracking (record { cell = some d; callbacks = [] })))
                d
                t.callbacks)
      track_first-Op t fuel s c d same =
          let x' = tracking (record { cell = some d; callbacks = [] }) in
          let s1 = put s c x' in
          let r = await_each-Op fuel s1 d t.callbacks in
          let s2 = await_each pack fuel s1 d t.callbacks in
          let had = ap (load w) same in
          record {
            views = λ b.
                r.views b
                ∙ put_rule s c x' (λ a y. view y ≡ view (s.cells a)) (ap view (sym same))
                    (λ a f. refl) b;
            alone = λ n le a.
                let (k, few, left) = clear-Alone w s c x' n refl a in
                more-Alone w (k + total w t.callbacks) (n + 0) s2 (omega arith)
                  (r.alone k (omega arith) left);
          }

      track_cell-Op :
          (x : ICell V Err) (fuel : ℕ) (s : Store V Err) (c d : Ref)
          → s.cells c ≡ x
          → Op 0 s (track_cell pack x fuel s c d)
      unfolding track_cell TrackingOnce.track await_each
      track_cell-Op (once k) fuel s c d same = Op-refl s
      track_cell-Op (any k) fuel s c d same = Op-refl s
      track_cell-Op (all k) fuel s c d same = Op-refl s
      track_cell-Op (tracking t) fuel s c d same = at t.cell
        where
          at :
              (o : Option Ref)
              → let (ok, t', callbacks) = track_at o t d in
                Op 0 s (await_each pack fuel (put s c (tracking t')) d callbacks)
          at (some old) =
              subst (Op 0 s) (queue_nothing (put s c (tracking t)))
                (changed-Op s c (tracking t) (tracking t) [] 0 same refl (inr (inl (refl, refl))))
          at none = track_first-Op t fuel s c d same

      pub track-Op : (fuel : ℕ) (s : Store V Err) (c d : Ref) → Op 0 s (track pack fuel s c d)
      unfolding track
      track-Op fuel s c d = track_cell-Op (s.cells c) fuel s c d refl

      write_cell-Op :
          (x : ICell V Err) (s : Store V Err) (ctx : Context) (c : Ref) (r : Result V Err)
          → s.cells c ≡ x
          → Op 0 s (write_cell pack x s ctx c r)
      unfolding write_cell
      write_cell-Op (once k) s ctx c r same =
          let k' = (write_result_to_value k ctx r).1 in
          changed-Op s c (once k) (once k') _ 0 same refl (
            job_of-Moves (once k) (once k') k k' 0 (write_result_to_value k ctx r).2 refl refl
              (write-CellMoves w k ctx r))
      write_cell-Op (tracking t) s ctx c r same = Op-refl s
      write_cell-Op (any k) s ctx c r same = Op-refl s
      write_cell-Op (all k) s ctx c r same = Op-refl s

      pub write-Op :
          (s : Store V Err) (ctx : Context) (c : Ref) (r : Result V Err)
          → Op 0 s (write pack s ctx c r)
      unfolding write
      write-Op s ctx c r = write_cell-Op (s.cells c) s ctx c r refl
