-- ===== src/Async/Direct.antt =====
-- The tasks of include/async_lib/task.h against code in direct style, in which a step waits for the
-- result of the one before.
mod Tests
use async_ery.Base.{ℕ, ◌≡◌, inl, inr, refl, sym, ◌∙◌, ap, subst, some, List, [], ◌∷◌, ◌++◌, Mem}
use async_ery.Cell.Result.{Result, value, error}
use async_ery.Async.Program.{Prog, mapped, Means}
use async_ery.Async.Store.{Ref, read}
use async_ery.Async.Task.{World, program_of, initial, block}
use async_ery.Async.Run.{
  Call, creates, maps, binds, when_anys, when_alls, awaits, completes, runs, apply, run,
}
use async_ery.Async.Sound.{In}
use async_ery.Async.Sound.Jobs.{Valid, AllValid}
use async_ery.Async.Due.{IsTask}
use async_ery.Async.Due.Histories.{UsesTasks, AllUseTasks}
use async_ery.Async.Due.Live.{Live}
use async_ery.Async.Laws.{read-Means, read-run, awaits-Mem}

pub data Direct (V : Type 0) : Type 0 where
  input : ℕ → Direct V
  give : V → Direct V
  convert : Direct V → (V → V) → Direct V
  follow : Direct V → (V → Direct V) → Direct V

module _ {V : Type 0} where
  -- The expression over tasks.
  abbrev pub as_tasks : Direct V → Prog V
  as_tasks (input k) = Prog.source k
  as_tasks (give v) = Prog.create v
  as_tasks (convert p f) = Prog.map (as_tasks p) f
  as_tasks (follow p f) = Prog.bind (as_tasks p) (λ v. as_tasks (f v))

module _ {V Err : Type 0} where
  abbrev next : (V → Result V Err) → Result V Err → Result V Err
  next f (value v) = f v
  next f (error e) = error e

  -- The result, when the inputs have these results; an error ends the computation.
  abbrev pub eval : (ℕ → Result V Err) → Direct V → Result V Err
  eval inputs (input k) = inputs k
  eval inputs (give v) = value v
  eval inputs (convert p f) = mapped f (eval inputs p)
  eval inputs (follow p f) = next (λ v. eval inputs (f v)) (eval inputs p)

  abbrev pub Exactly : (ℕ → Result V Err) → ℕ → Result V Err → Type 0
  Exactly inputs k r = r ≡ inputs k

  module _ (blank : V) (pack : List V → V) (inputs : ℕ → Result V Err) where
    -- There is no other result.
    Means-eval :
        (p : Direct V) (r : Result V Err)
        → Means blank pack (Exactly inputs) (as_tasks p) r
        → r ≡ eval inputs p
    unfolding Means
    Means-eval (input k) r m = m
    Means-eval (give v) r m = m
    Means-eval (convert p f) r (q, m, e) = e ∙ ap (mapped f) (Means-eval p q m)
    Means-eval (follow p f) r (inl (v, m, m')) =
        Means-eval (f v) r m' ∙ ap (next (λ u. eval inputs (f u))) (Means-eval p (value v) m)
    Means-eval (follow p f) r (inr (e, m, same)) =
        same ∙ ap (next (λ u. eval inputs (f u))) (Means-eval p (error e) m)

    -- After a valid history in which value source `k` is completed, if at all, with `inputs k`, and in
    -- which the client makes tasks from the tasks that it was given, when no job is left and the
    -- sources that its evaluation reads have their results, the task of an expression of sources, `create`,
    -- `map` and `bind` has the result of the code in direct style, in whatever order the jobs ran.
    pub block-eval :
        (User : ℕ → Result V Err → Type 0) (calls : List (Call V Err))
        → AllValid blank pack (Exactly inputs) User initial calls
        → AllUseTasks blank pack (Exactly inputs) User initial calls
        → (run blank pack initial calls).store.jobs ≡ []
        → (c : Ref) (p : Direct V) → IsTask (run blank pack initial calls) c
        → program_of (run blank pack initial calls) c ≡ as_tasks p
        → Live blank pack (Exactly inputs) (run blank pack initial calls).store (as_tasks p)
        → block blank pack (run blank pack initial calls) c ≡ some (eval inputs p)
    block-eval User calls ok tasks quiet c p t stands live =
        let w = run blank pack initial calls in
        let s =
          read-run blank pack (Exactly inputs) User calls ok tasks quiet c t
            (subst (Live blank pack (Exactly inputs) w.store) (sym stands) live) in
        s.1
        ∙ ap (λ r. some r)
            (Means-eval p s.0 (subst (λ a. Means blank pack (Exactly inputs) a s.0) stands s.2))

    -- After any valid history in which value source `k` is completed, if at all, with `inputs k`, at
    -- any moment, with jobs that are left or without, what is read from a task of an expression of sources,
    -- `create`, `map` and `bind` is the result of the code in direct style and nothing else.
    pub read-eval :
        (User : ℕ → Result V Err → Type 0) (calls : List (Call V Err))
        → AllValid blank pack (Exactly inputs) User initial calls
        → (c : Ref) (p : Direct V) (fuel : ℕ) (r : Result V Err)
        → In (run blank pack initial calls).next c
        → program_of (run blank pack initial calls) c ≡ as_tasks p
        → read pack fuel (run blank pack initial calls).store c ≡ some r
        → r ≡ eval inputs p
    read-eval User calls ok c p fuel r i stands e = Means-eval p r (
        subst (λ a. Means blank pack (Exactly inputs) a r) stands
          (read-Means blank pack (Exactly inputs) User calls ok c fuel r i e))

    -- Callback `n` of the client is registered with tasks of the expression `of n` only.
    abbrev pub Registers : (ℕ → Direct V) → World V Err → Call V Err → Type 0
    Registers of w (awaits c n) = program_of w c ≡ as_tasks (of n)
    Registers of w (creates v) = Unit
    Registers of w (maps c func) = Unit
    Registers of w (binds c func) = Unit
    Registers of w (when_anys tasks) = Unit
    Registers of w (when_alls tasks) = Unit
    Registers of w (completes k ctx result) = Unit
    Registers of w (runs i ctx) = Unit

    abbrev pub AllRegister : (ℕ → Direct V) → World V Err → List (Call V Err) → Type 0
    AllRegister of w [] = Unit
    AllRegister of w (c ∷ calls) = Registers of w c × AllRegister of (apply blank pack w c) calls

    abbrev pub Anything : ℕ → Result V Err → Type 0
    Anything n r = Unit

    abbrev Evaluated : (ℕ → Direct V) → ℕ → Result V Err → Type 0
    Evaluated of n r = r ≡ eval inputs (of n)

    -- A callback that accepts the one result of its expression is as good as one that accepts all.
    Valid-Evaluated :
        (of : ℕ → Direct V) (w : World V Err) (call : Call V Err)
        → Valid blank pack (Exactly inputs) Anything w call
        → Registers of w call
        → Valid blank pack (Exactly inputs) (Evaluated of) w call
    Valid-Evaluated of w (awaits c n) ok reg = (
      ok.0,
      λ r m. Means-eval (of n) r (subst (λ a. Means blank pack (Exactly inputs) a r) reg m),
    )
    Valid-Evaluated of w (creates v) ok reg = ok
    Valid-Evaluated of w (maps c func) ok reg = ok
    Valid-Evaluated of w (binds c func) ok reg = ok
    Valid-Evaluated of w (when_anys tasks) ok reg = ok
    Valid-Evaluated of w (when_alls tasks) ok reg = ok
    Valid-Evaluated of w (completes k ctx result) ok reg = ok
    Valid-Evaluated of w (runs i ctx) ok reg = ok

    AllValid-Evaluated :
        (of : ℕ → Direct V) (w : World V Err) (calls : List (Call V Err))
        → AllValid blank pack (Exactly inputs) Anything w calls
        → AllRegister of w calls
        → AllValid blank pack (Exactly inputs) (Evaluated of) w calls
    AllValid-Evaluated of w [] ok reg = tt
    AllValid-Evaluated of w (c ∷ calls) ok reg = (
      Valid-Evaluated of w c ok.0 reg.0,
      AllValid-Evaluated of (apply blank pack w c) calls ok.1 reg.1,
    )

    UsesTasks-Evaluated :
        (of : ℕ → Direct V) (w : World V Err) (call : Call V Err)
        → UsesTasks blank pack (Exactly inputs) Anything w call
        → UsesTasks blank pack (Exactly inputs) (Evaluated of) w call
    UsesTasks-Evaluated of w (creates v) u = u
    UsesTasks-Evaluated of w (maps c func) u = u
    UsesTasks-Evaluated of w (binds c func) u = u
    UsesTasks-Evaluated of w (when_anys tasks) u = u
    UsesTasks-Evaluated of w (when_alls tasks) u = u
    UsesTasks-Evaluated of w (awaits c n) u = u
    UsesTasks-Evaluated of w (completes k ctx result) u = u
    UsesTasks-Evaluated of w (runs i ctx) u = u

    AllUseTasks-Evaluated :
        (of : ℕ → Direct V) (w : World V Err) (calls : List (Call V Err))
        → AllUseTasks blank pack (Exactly inputs) Anything w calls
        → AllUseTasks blank pack (Exactly inputs) (Evaluated of) w calls
    AllUseTasks-Evaluated of w [] u = tt
    AllUseTasks-Evaluated of w (c ∷ calls) u =
        (UsesTasks-Evaluated of w c u.0, AllUseTasks-Evaluated of (apply blank pack w c) calls u.1)

    -- After a valid history in which value source `k` is completed, if at all, with `inputs k`, in
    -- which the client makes tasks from the tasks that it was given and registers callback `m` with
    -- tasks of the expression `of m` only, when no job is left, callback `n`, registered at any point of
    -- the history with a task whose sources have their results, was called with the result of `of n` in
    -- direct style.
    pub awaits-eval :
        (of : ℕ → Direct V) (before after : List (Call V Err)) (c : Ref) (n : ℕ)
        → AllValid blank pack (Exactly inputs) Anything initial (before ++ awaits c n ∷ after)
        → AllUseTasks blank pack (Exactly inputs) Anything initial (before ++ awaits c n ∷ after)
        → AllRegister of initial (before ++ awaits c n ∷ after)
        → (run blank pack initial (before ++ awaits c n ∷ after)).store.jobs ≡ []
        → IsTask (run blank pack initial (before ++ awaits c n ∷ after)) c
        → Live blank pack
            (Exactly inputs)
            (run blank pack initial (before ++ awaits c n ∷ after)).store
            (program_of (run blank pack initial (before ++ awaits c n ∷ after)) c)
        → Mem
            (n, eval inputs (of n))
            (run blank pack initial (before ++ awaits c n ∷ after)).store.log
    awaits-eval of before after c n ok tasks reg quiet t live =
        let calls = before ++ awaits c n ∷ after in
        let s =
          awaits-Mem blank pack (Exactly inputs) (Evaluated of) before after c n
            (AllValid-Evaluated of initial calls ok reg)
            (AllUseTasks-Evaluated of initial calls tasks) quiet t live in
        subst (λ r. Mem (n, r) (run blank pack initial calls).store.log) s.2 s.1
