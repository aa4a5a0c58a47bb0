-- ===== src/Async/Sound/Grow.antt =====
-- What was sound stays so when cells are allocated.
use async_ery.Base.{inl, inr, ℕ, ◌≡◌, ◌≤◌, ◌<◌, refl, sym, ◌∙◌, subst, List, [], ◌∷◌, All, arith}
use async_ery.Cell.Result.{Result, value, error}
use async_ery.Cell.WriteOnce.{WriteOnceCell}
use async_ery.Async.Program.{Prog, mapped, Means}
use async_ery.Async.Store.{
  Ref, source, cell, Callback, map_to, bind_to, any_to, all_to, user, ICell, once, tracking, any,
  all, Work, call, compute, Job, packed,
}
use async_ery.Async.Task.{made_of}
use async_ery.Async.Sound.{
  In, Leads, InAll, InAny, AnyFits, May, BindFits, AllFits, Fits, Wait, GoodOnce, Good, WorkFits,
  JobFits,
}

module _ {V Err : Type 0} (blank : V) (pack : List V → V) (Src : ℕ → Result V Err → Type 0)
    (User : ℕ → Result V Err → Type 0) {made made' : ℕ → Prog V} {next next' : ℕ}
    (le : next ≤ next') (same : (n : ℕ) → n < next → made' n ≡ made n) where
  pub In-grow : (c : Ref) → In next c → In next' c
  In-grow (source k) i = tt
  In-grow (cell n) i = omega arith

  pub same_at : (c : Ref) → In next c → made_of made' c ≡ made_of made c
  same_at (source k) i = refl
  same_at (cell n) i = same n i

  pub May-grow :
      (c : Ref) (r : Result V Err)
      → In next c
      → May blank pack Src User made next c r
      → May blank pack Src User made' next' c r
  May-grow c r i m = subst (λ p. Means blank pack Src p r) (sym (same_at c i)) m

  pub May-back :
      (c : Ref) (r : Result V Err)
      → In next c
      → May blank pack Src User made' next' c r
      → May blank pack Src User made next c r
  May-back c r i m = subst (λ p. Means blank pack Src p r) (same_at c i) m

  Bind-grow :
      (t e : Ref) (f : V → Prog V) (r : Result V Err)
      → In next t
      → In next e
      → BindFits blank pack Src User made next t e f r
      → BindFits blank pack Src User made' next' t e f r
  Bind-grow t e f (value v) it ie h = λ q m. May-grow t q it (h q m)
  Bind-grow t e f (error x) it ie h = May-grow e (error x) ie h

  All-grow :
      (d : Ref) (i : ℕ) (r : Result V Err)
      → In next d
      → AllFits blank pack Src User made next d i r
      → AllFits blank pack Src User made' next' d i r
  All-grow d i (value v) h m =
      subst (λ p. InAll blank pack Src User p i (value v)) (sym (same_at d h)) m
  All-grow d i (error x) h m = May-grow d (error x) h m

  Any-grow :
      (d : Ref) (i : ℕ) (r : Result V Err)
      → In next d
      → AnyFits blank pack Src User made next d i r
      → AnyFits blank pack Src User made' next' d i r
  Any-grow d i (value v) h m = May-grow d (value v) h m
  Any-grow d i (error x) h m =
      subst (λ p. InAny blank pack Src User p i (error x)) (sym (same_at d h)) m

  Leads-grow :
      (c d : Ref) (p : Prog V)
      → In next d
      → Leads blank pack Src User made next c d p
      → Leads blank pack Src User made' next' c d p
  Leads-grow c d (Prog.bind p f) i (inl (v, m, e)) = inl (v, m, same_at d i ∙ e)
  Leads-grow c d (Prog.bind p f) i (inr (a, e)) = inr (a, same_at d i ∙ e)
  Leads-grow c d (Prog.source k) i h = h
  Leads-grow c d (Prog.create v) i h = h
  Leads-grow c d (Prog.map p f) i h = h
  Leads-grow c d (Prog.when_any ps) i h = h
  Leads-grow c d (Prog.when_all ps) i h = h

  Fits-grow :
      (callback : Callback V) (r : Result V Err)
      → Fits blank pack Src User made next callback r
      → Fits blank pack Src User made' next' callback r
  Fits-grow (map_to d f) r h = (In-grow d h.0, May-grow d (mapped f r) h.0 h.1)
  Fits-grow (bind_to t e f) r h = (
    In-grow t h.0,
    In-grow e h.1,
    Bind-grow t e f r h.0 h.1 h.2,
    λ q m. May-grow t q h.0 (h.3 q (May-back e q h.1 m)),
    h.4,
    (h.5.0, same_at t h.0 ∙ h.5.1, h.5.2),
    h.6,
    same_at e h.1 ∙ h.7 ∙ sym (same_at t h.0),
  )
  Fits-grow (any_to d i) r h = (In-grow d h.0, Any-grow d i r h.0 h.1)
  Fits-grow (all_to d i) r h = (In-grow d h.0, All-grow d i r h.0 h.1)
  Fits-grow (user n) r h = h

  Wait-grow :
      (c : Ref) (callbacks : List (Callback V))
      → In next c
      → Wait blank pack Src User made next (May blank pack Src User made next c) callbacks
      → Wait blank pack Src User made' next' (May blank pack Src User made' next' c) callbacks
  Wait-grow c [] i h = tt
  Wait-grow c (callback ∷ callbacks) i h =
      (λ r m. Fits-grow callback r (h.0 r (May-back c r i m)), Wait-grow c callbacks i h.1)

  Once-grow :
      {T : Type 0} (embed : Result T Err → Result V Err) (c : Ref)
      (k : WriteOnceCell (Callback V) T Err)
      → In next c
      → GoodOnce blank pack Src User made next embed (May blank pack Src User made next c) k
      → GoodOnce blank pack Src User made' next' embed (May blank pack Src User made' next' c) k
  Once-grow embed c k i h = (λ r e. May-grow c (embed r) i (h.0 r e), Wait-grow c k.callbacks i h.1)

  pub Good-grow :
      (c : Ref) (x : ICell V Err)
      → In next c
      → Good blank pack Src User made next c x
      → Good blank pack Src User made' next' c x
  Good-grow c (once k) i h = Once-grow (λ r. r) c k i h
  Good-grow c (tracking t) i h = (
    λ d e. (
      In-grow d (h.0 d e).0,
      λ r m. May-grow c r i ((h.0 d e).1 r (May-back d r (h.0 d e).0 m)),
      subst (Leads blank pack Src User made' next' c d) (sym (same_at c i))
          (Leads-grow c d (made_of made c) (h.0 d e).0 (h.0 d e).2),
    ),
    Wait-grow c t.callbacks i h.1,
  )
  Good-grow c (any k) i h = Once-grow (λ r. r) c k.underlying_cell i h
  Good-grow c (all k) i h = Once-grow (packed pack) c k.underlying_cell i h

  Work-grow :
      (work : Work V Err)
      → WorkFits blank pack Src User made next work
      → WorkFits blank pack Src User made' next' work
  Work-grow (call callback r) h = Fits-grow callback r h
  Work-grow (compute d v) h = (In-grow d h.0, May-grow d (value v) h.0 h.1)

  pub jobs_grow :
      (jobs : List (Job V Err))
      → All (JobFits blank pack Src User made next) jobs
      → All (JobFits blank pack Src User made' next') jobs
  jobs_grow [] h = tt
  jobs_grow (j ∷ jobs) h = (Work-grow j.work h.0, jobs_grow jobs h.1)
