-- ===== src/Async/Owed/Served.antt =====
-- Histories of calls: a callback of the client stays owed until it is called, and none waits in a cell
-- that can be read.
use async_ery.Base.{ℕ, suc, inl, inr, refl, List, [], ◌∷◌, ◌++◌}
use mathlib.Core.Option.{none-ne-some}
use async_ery.Cell.Result.{Result, value, error}
use async_ery.Async.Store.{Ref, source, user}
use async_ery.Async.Task.{World, initial, await}
use async_ery.Async.ValueSource.{resolve}
use async_ery.Async.Run.{
  Call, creates, maps, binds, when_anys, when_alls, awaits, completes, runs, take_job, apply, run,
}
use async_ery.Async.Sound.{In}
use async_ery.Async.Owed.{Calls}
use async_ery.Async.Tokens.Whole.{WholeWorld, apply_whole, run_whole}
use async_ery.Async.Sound.Jobs.{Valid, AllValid, taken_fits}
use async_ery.Async.Owed.Change.{enough}
use async_ery.Async.Owed.Await.{await-Awaited}
use async_ery.Async.Owed.Writes.{write-Keeping}
use async_ery.Async.Owed.Worlds.{In-more, LinkedWorld, Preserves, stays-Preserves}
use async_ery.Async.Owed.Makes.{create-Made, map-Made, bind-Made, when_any-Made, when_all-Made}
use async_ery.Async.Owed.Jobs.{Served, Preserves-Served, taken-Left, run_job-Served}

module _ {V Err : Type 0} (blank : V) (pack : List V → V) (Src : ℕ → Result V Err → Type 0)
    (User : ℕ → Result V Err → Type 0) where
  -- After a step, what was served still is.
  abbrev pub Serves : World V Err → World V Err → Type 0
  Serves w w' =
      LinkedWorld w'
      × ((c : Ref) (n : ℕ)
          → In w.next c
          → Served blank pack Src User w c n
          → Served blank pack Src User w' c n)

  serves : {w w' : World V Err} → LinkedWorld w → Preserves w w' → Serves w w'
  serves l p = (p.linked, λ c n i h. Preserves-Served blank pack Src User c n l p i h)

  pub initial_linked : LinkedWorld (initial {V = V} {Err = Err})
  initial_linked = record { climbs = λ c i d e. absurd (none-ne-some d e); tidy = λ c i r e. refl }

  pub apply-Serves :
      (w : World V Err) (c : Call V Err)
      → WholeWorld blank pack Src User w
      → LinkedWorld w
      → Valid blank pack Src User w c
      → Serves w (apply blank pack w c)
  unfolding apply await resolve
  apply-Serves w (creates v) h l ok = serves l (create-Made w v l).preserves
  apply-Serves w (maps c f) h l ok = serves l (map-Made blank pack w c f l ok).preserves
  apply-Serves w (binds c f) h l ok = serves l (bind-Made blank pack w c f l ok).preserves
  apply-Serves w (when_anys cs) h l ok = serves l (when_any-Made blank pack w cs l ok).preserves
  apply-Serves w (when_alls cs) h l ok = serves l (when_all-Made blank pack w cs l ok).preserves
  apply-Serves w (awaits c n) h l ok = serves l (
      stays-Preserves w _
        (await-Awaited pack w.next (suc w.next) w.store c (user n) l ok.0 (enough w.next c)).0)
  apply-Serves w (completes k ctx (value v)) h l ok =
      serves l
        (stays-Preserves w _ (write-Keeping pack w.next w.store ctx (source k) (value v) l tt))
  apply-Serves w (completes k ctx (error e)) h l ok =
      serves l
        (stays-Preserves w _ (write-Keeping pack w.next w.store ctx (source k) (error e) l tt))
  apply-Serves w (runs j ctx) h l ok =
      let r =
        run_job-Served blank pack Src User w ctx (take_job j w.store.jobs) l
          (taken_fits blank pack Src User w.next w.made j w.store.jobs h.sound.jobs) in
      (
        r.0,
        λ c n i s. r.1 c n i (elim s [
          | inl (inl waits) ↦ inl (inl waits)
          | inl (inr q) ↦
              inl (inr (taken-Left blank pack Src User (Calls (user n)) j w.store.jobs q))
          | inr m ↦ inr m
        ]),
      )

  pub run-Serves :
      (w : World V Err) (calls : List (Call V Err))
      → WholeWorld blank pack Src User w
      → LinkedWorld w
      → AllValid blank pack Src User w calls
      → Serves w (run blank pack w calls)
  unfolding run
  run-Serves w [] h l ok = (l, λ c n i s. s)
  run-Serves w (c ∷ calls) h l ok =
      let a = apply-Serves w c h l ok.0 in
      let g = apply_whole blank pack Src User w c h ok.0 in
      let w' = apply blank pack w c in
      let rest = run-Serves w' calls g.sound a.0 ok.1 in
      (rest.0, λ d n i s. rest.1 d n (In-more w.next w'.next d g.grown.more i) (a.1 d n i s))

  -- A callback that a client has just registered.
  pub awaits-Served :
      (w : World V Err) (c : Ref) (n : ℕ)
      → LinkedWorld w
      → In w.next c
      → Served blank pack Src User (apply blank pack w (awaits c n)) c n
  unfolding apply await
  awaits-Served w c n l i =
      inl (await-Awaited pack w.next (suc w.next) w.store c (user n) l i (enough w.next c)).1

  -- A callback that is registered in the course of a history is served at its end.
  pub registered-Served :
      (w : World V Err) (before after : List (Call V Err)) (c : Ref) (n : ℕ)
      → WholeWorld blank pack Src User w
      → LinkedWorld w
      → AllValid blank pack Src User w (before ++ awaits c n ∷ after)
      → let w' = run blank pack w (before ++ awaits c n ∷ after) in
        LinkedWorld w' × In w'.next c × Served blank pack Src User w' c n
  unfolding run
  registered-Served w [] after c n h l ok =
      let w' = apply blank pack w (awaits c n) in
      let g = apply_whole blank pack Src User w (awaits c n) h ok.0 in
      let a = apply-Serves w (awaits c n) h l ok.0 in
      let i = In-more w.next w'.next c g.grown.more ok.0.0 in
      let rest = run-Serves w' after g.sound a.0 ok.1 in
      let end = run_whole blank pack Src User w' after g.sound ok.1 in
      (
        rest.0,
        In-more w'.next (run blank pack w' after).next c end.grown.more i,
        rest.1 c n i (awaits-Served w c n l ok.0.0),
      )
  registered-Served w (x ∷ before) after c n h l ok =
      let g = apply_whole blank pack Src User w x h ok.0 in
      let a = apply-Serves w x h l ok.0 in
      registered-Served (apply blank pack w x) before after c n g.sound a.0 ok.1
