-- ===== src/Async/Sound/Cells.antt =====
-- The operations on the store keep it sound.
use async_ery.Base.{
  ℕ, zero, suc, ◌≡◌, refl, sym, ap, subst, Bool-cases, inl, inr, true, equal, Option, none, some,
  List, [], ◌∷◌, map, All, All-append, All-map, if◌then◌else◌,
}
use async_ery.Cell.Result.{Result}
use async_ery.Cell.WriteOnce.{Delivery, WriteOnceCell, write_result_to_value}
use async_ery.Cell.WriteOnce
use async_ery.Cell.WriteOnce.Held.{await-Held}
use async_ery.Cell.TrackingOnce.{hold}
use async_ery.Async.Program.{Prog}
use async_ery.Async.Store.{
  Ref, source, cell, same_ref, Callback, ICell, once, tracking, any, all, Job, Store, put, queue,
  packed, job_of, packed_job_of, await, await_cell,
}
use async_ery.Async.Sound.{In, May, Fits, Good, JobFits, Sound}

pub same_ref-eq : (c d : Ref) → same_ref c d ≡ true → c ≡ d
same_ref-eq (source m) (source n) e = ap source (equal e)
same_ref-eq (cell m) (cell n) e = ap cell (equal e)
same_ref-eq (source m) (cell n) e = cc
same_ref-eq (cell m) (source n) e = cc

module _ {V Err : Type 0} (blank : V) (pack : List V → V) (Src : ℕ → Result V Err → Type 0)
    (User : ℕ → Result V Err → Type 0) (made : ℕ → Prog V) (next : ℕ) where
  abbrev pub Keeps : Store V Err → Type 0
  Keeps = Sound blank pack Src User made next

  abbrev pub Holds : Ref → ICell V Err → Type 0
  Holds = Good blank pack Src User made next

  abbrev pub Suits : Ref → Callback V → Type 0
  Suits c callback =
      (r : Result V Err)
      → May blank pack Src User made next c r
      → Fits blank pack Src User made next callback r

  pub put_sound :
      (s : Store V Err) (c : Ref) (x : ICell V Err) → Keeps s → Holds c x → Keeps (put s c x)
  put_sound s c x v h = record {
    cells = λ d i. elim (Bool-cases (same_ref c d)) [
      | inl e ↦
          subst (λ b. Holds d (if b then x else s.cells d)) (sym e)
            (subst (λ a. Holds a x) (same_ref-eq c d e) h)
      | inr e ↦ subst (λ b. Holds d (if b then x else s.cells d)) (sym e) (v.cells d i)
    ];
    jobs = v.jobs;
    log = v.log;
  }

  pub queue_sound :
      (s : Store V Err) (jobs : List (Job V Err))
      → Keeps s
      → All (JobFits blank pack Src User made next) jobs
      → Keeps (queue s jobs)
  queue_sound s jobs v h = record {
    cells = v.cells;
    jobs = All-append (JobFits blank pack Src User made next) s.jobs jobs v.jobs h;
    log = v.log;
  }

  -- A cell that an operation has changed, with the jobs that it queued.
  pub changed :
      (s : Store V Err) (c : Ref) (x : ICell V Err) (calls : List (Delivery (Callback V) V Err))
      → Keeps s
      → Holds c x
      → All (λ d. Fits blank pack Src User made next d.callback d.result) calls
      → Keeps (queue (put s c x) (map job_of calls))
  changed s c x calls v h jobs =
      queue_sound (put s c x) (map job_of calls) (put_sound s c x v h)
        (All-map (JobFits blank pack Src User made next) job_of calls jobs)

  pub changed_packed :
      (s : Store V Err) (c : Ref) (x : ICell V Err)
      (calls : List (Delivery (Callback V) (List V) Err))
      → Keeps s
      → Holds c x
      → All (λ d. Fits blank pack Src User made next d.callback (packed pack d.result)) calls
      → Keeps (queue (put s c x) (map (packed_job_of pack) calls))
  changed_packed s c x calls v h jobs =
      queue_sound (put s c x) (map (packed_job_of pack) calls) (put_sound s c x v h)
        (All-map (JobFits blank pack Src User made next) (packed_job_of pack) calls jobs)

  -- The parameters of `Held` for a cell whose results are read through `embed`.
  module _ (T : Type 0) (embed : Result T Err → Result V Err) (c : Ref) where
    abbrev pub Q : Result T Err → Type 0
    Q r = May blank pack Src User made next c (embed r)

    abbrev pub F : Callback V → Result T Err → Type 0
    F callback r = Fits blank pack Src User made next callback (embed r)

    abbrev pub meets :
        (callback : Callback V) (r : Result T Err) → Suits c callback → Q r → F callback r
    meets callback r w q = w (embed r) q

  await_cell_sound :
      (x : ICell V Err) (rest : Ref → Store V Err) (s : Store V Err) (c : Ref)
      (callback : Callback V)
      → Keeps s
      → Holds c x
      → Suits c callback
      → ((d : Ref) → In next d → Suits d callback → Keeps (rest d))
      → Keeps (await_cell pack x rest s c callback)
  unfolding await_cell hold
  await_cell_sound (once k) rest s c callback v h w go =
      let held =
        await-Held (Q V (λ r. r) c) (Suits c) (F V (λ r. r) c) (meets V (λ r. r) c) k callback h
          w in
      changed s c (once (WriteOnce.await k callback).0) (WriteOnce.await k callback).1 v held.0
        held.1
  await_cell_sound (tracking t) rest s c callback v h w go = at t.cell refl
    where
      at :
          (o : Option Ref)
          → t.cell ≡ o
          → Keeps (elim o [ some d ↦ rest d | none ↦ put s c (tracking (hold t callback)) ])
      at (some d) e = go d (h.0 d e).0 (λ r m. w r ((h.0 d e).1 r m))
      at none e =
          put_sound s c (tracking (hold t callback)) v
            (h.0, All-append (Suits c) t.callbacks (callback ∷ []) h.1 (w, tt))
  await_cell_sound (any k) rest s c callback v h w go =
      let held =
        await-Held (Q V (λ r. r) c) (Suits c) (F V (λ r. r) c) (meets V (λ r. r) c)
          k.underlying_cell callback h w in
      changed s c
        (any (record k { underlying_cell = (WriteOnce.await k.underlying_cell callback).0 }))
        (WriteOnce.await k.underlying_cell callback).1 v held.0 held.1
  await_cell_sound (all k) rest s c callback v h w go =
      let held =
        await-Held (Q (List V) (packed pack) c) (Suits c) (F (List V) (packed pack) c)
          (meets (List V) (packed pack) c) k.underlying_cell callback h w in
      changed_packed s c
        (all (record k { underlying_cell = (WriteOnce.await k.underlying_cell callback).0 }))
        (WriteOnce.await k.underlying_cell callback).1 v held.0 held.1

  -- Registering a callback that suits the cell.
  pub await_sound :
      (fuel : ℕ) (s : Store V Err) (c : Ref) (callback : Callback V)
      → In next c
      → Suits c callback
      → Keeps s
      → Keeps (await pack fuel s c callback)
  unfolding await
  await_sound zero s c callback i w v = v
  await_sound (suc fuel) s c callback i w v =
      await_cell_sound (s.cells c) (λ d. await pack fuel s d callback) s c callback v (v.cells c i)
        w (λ d j w'. await_sound fuel s d callback j w' v)
