-- ===== src/Async/Due/Register.antt =====
-- The loop that registers the reports with the cells that are joined, and what is owed after it.
use async_ery.Base.{
  ℕ, zero, suc, ◌+◌, ◌≡◌, ◌<◌, refl, ◌∙◌, ap, subst, List, [], ◌∷◌, length, All, arith,
}
use async_ery.Async.Store.{Ref, Callback, any_to, all_to, Store, await}
use async_ery.Async.Task.{World, program_of, programs_of, await_any, await_all}
use async_ery.Async.Sound.{In}
use async_ery.Async.Owed.{Owed, Linked, Keeping, Keeping-refl, Keeping-trans, keep-Owed}
use async_ery.Async.Owed.Change.{enough}
use async_ery.Async.Owed.Await.{await-Awaited}
use async_ery.Async.Due.{IsTask, Parent}
use async_ery.Async.Program.{how_many, prog_at}
use async_ery.Async.Due.Links.{Still, await-Still}

module _ {V Err : Type 0} (pack : List V → V) where
  abbrev pub register : ℕ → Store V Err → ℕ → List Ref → (ℕ → Callback V) → Store V Err
  register fuel s i [] report = s
  register fuel s i (c ∷ cs) report =
      register fuel (await pack fuel s c (report i)) (i + 1) cs report

  pub await_any-register :
      (blank : V) (fuel : ℕ) (s : Store V Err) (i : ℕ) (cs : List Ref) (d : Ref)
      → await_any blank pack fuel s i cs d ≡ register fuel s i cs (any_to d)
  unfolding await_any
  await_any-register blank fuel s i [] d = refl
  await_any-register blank fuel s i (c ∷ cs) d =
      await_any-register blank fuel (await pack fuel s c (any_to d i)) (i + 1) cs d

  pub await_all-register :
      (blank : V) (fuel : ℕ) (s : Store V Err) (i : ℕ) (cs : List Ref) (d : Ref)
      → await_all blank pack fuel s i cs d ≡ register fuel s i cs (all_to d)
  unfolding await_all
  await_all-register blank fuel s i [] d = refl
  await_all-register blank fuel s i (c ∷ cs) d =
      await_all-register blank fuel (await pack fuel s c (all_to d i)) (i + 1) cs d

  -- Each of the cells owes the report of its place.
  abbrev pub AllOwed : Store V Err → ℕ → List Ref → (ℕ → Callback V) → Type 0
  AllOwed s i [] report = Unit
  AllOwed s i (c ∷ cs) report = Owed s c (report i) × AllOwed s (i + 1) cs report

  pub register-Keeping :
      (next : ℕ) (s : Store V Err) (i : ℕ) (cs : List Ref) (report : ℕ → Callback V)
      → Linked next s
      → All (In next) cs
      → Keeping next s (register (suc next) s i cs report)
        × AllOwed (register (suc next) s i cs report) i cs report
  register-Keeping next s i [] report l ins = (Keeping-refl next s l, tt)
  register-Keeping next s i (c ∷ cs) report l ins =
      let a = await-Awaited pack next (suc next) s c (report i) l ins.0 (enough next c) in
      let rest =
        register-Keeping next (await pack (suc next) s c (report i)) (i + 1) cs report a.0.linked
          ins.1 in
      (Keeping-trans a.0 rest.0, (keep-Owed a.0.linked rest.0 ins.0 a.1, rest.1))

  pub register-Still :
      (fuel : ℕ) (s : Store V Err) (i : ℕ) (cs : List Ref) (report : ℕ → Callback V)
      → Still s (register fuel s i cs report)
  register-Still fuel s i [] report = λ b. refl
  register-Still fuel s i (c ∷ cs) report = λ b.
      register-Still fuel (await pack fuel s c (report i)) (i + 1) cs report b
      ∙ await-Still pack fuel s c (report i) b

  pub how_many-programs_of :
      (w : World V Err) (cs : List Ref) → how_many (programs_of w cs) ≡ length cs
  how_many-programs_of w [] = refl
  how_many-programs_of w (c ∷ cs) = ap (λ n. suc n) (how_many-programs_of w cs)

  -- Each report is owed by the task of its place.
  pub AllOwed-Parent :
      (w w' : World V Err) (i : ℕ) (cs : List Ref) (report : ℕ → Callback V)
      → ((c : Ref) → IsTask w c → IsTask w' c × (program_of w' c ≡ program_of w c))
      → All (IsTask w) cs
      → AllOwed w'.store i cs report
      → (j : ℕ) → j < how_many (programs_of w cs)
      → Parent w' (prog_at (programs_of w cs) j) (report (i + j))
  AllOwed-Parent w w' i [] report carry ts owed j lt = absurd (omega arith)
  AllOwed-Parent w w' i (c ∷ cs) report carry ts owed zero lt =
      let t = carry c ts.0 in
      (c, t.0, t.1, subst (λ n. Owed w'.store c (report n)) (omega arith) owed.0)
  AllOwed-Parent w w' i (c ∷ cs) report carry ts owed (suc j) lt =
      subst (λ n. Parent w' (prog_at (programs_of w cs) j) (report n)) (omega arith)
        (AllOwed-Parent w w' (i + 1) cs report carry ts.1 owed.1 j (omega arith))
