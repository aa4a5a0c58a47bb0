-- ===== src/Async/Tokens.antt =====
-- Where the callbacks of a kind are: at most so many of them, in one cell or in the queue.

pub mod Steps
mod Counts
mod Reports
mod Worlds
mod Makes
mod Runs
pub mod Whole
use async_ery.Base.{
  ℕ, zero, suc, ◌+◌, ◌≡◌, ◌≤◌, ◌⊎◌, inl, inr, refl, sym, ap, ◌∙◌, subst, Bool-cases, true, false,
  List, [], ◌∷◌, ◌++◌, total, total-append, if◌then◌else◌, arith,
}
use async_ery.Async.Store.{
  Ref, same_ref, Callback, ICell, Work, call, compute, Job, Store, put, queue,
}
use async_ery.Async.Owed.{held}
use async_ery.Async.Owed.Change.{put_rule, put_here}
use async_ery.Async.Sound.Cells.{same_ref-eq}

module _ {V Err : Type 0} (w : Callback V → ℕ) where
  -- How many callbacks there are, by the weight of each, in a cell and in the queue.
  abbrev pub load : ICell V Err → ℕ
  load x = total w (held x)

  abbrev pub work_load : Work V Err → ℕ
  work_load (call callback r) = w callback
  work_load (compute c v) = 0

  abbrev pub job_load : Job V Err → ℕ
  job_load j = work_load j.work

  -- At most `n` of them, which are in one cell or queued.
  abbrev pub Alone : ℕ → Store V Err → Type 0
  Alone n s =
      ((c : Ref) × (load (s.cells c) ≤ n)
        × ((d : Ref) → same_ref c d ≡ false → load (s.cells d) ≡ 0)
        × (total job_load s.jobs ≡ 0))
      ⊎ (((d : Ref) → load (s.cells d) ≡ 0) × (total job_load s.jobs ≤ n))

  pub more-Alone : (n m : ℕ) (s : Store V Err) → n ≤ m → Alone n s → Alone m s
  more-Alone n m s le (inl (c, here, others, none_queued)) =
      inl (c, omega arith, others, none_queued)
  more-Alone n m s le (inr (nowhere, few)) = inr (nowhere, omega arith)

  pub load-Alone : (n : ℕ) (s : Store V Err) (c : Ref) → Alone n s → load (s.cells c) ≤ n
  load-Alone n s c (inl (d, here, others, none_queued)) = elim (Bool-cases (same_ref d c)) [
    | inl e ↦ subst (λ a. load (s.cells a) ≤ n) (same_ref-eq d c e) here
    | inr e ↦ omega (arith, others c e)
  ]
  load-Alone n s c (inr (nowhere, few)) = omega (arith, nowhere c)

  -- None at all.
  pub zero-Alone :
      (s : Store V Err)
      → Alone 0 s
      → ((d : Ref) → load (s.cells d) ≡ 0) × (total job_load s.jobs ≡ 0)
  zero-Alone s a = (
    λ d. omega (arith, load-Alone 0 s d a),
    elim a [ inl (c, here, others, none_queued) ↦ none_queued | inr (nowhere, few) ↦ omega arith ],
  )

  -- What a change of one cell does, with `m` that are new: they are in the cell or queued, or all of the
  -- cell's were queued.
  abbrev pub Moves : ℕ → ICell V Err → ICell V Err → List (Job V Err) → Type 0
  Moves m x x' jobs =
      ((total job_load jobs ≡ 0) × (load x' ≡ load x + m))
      ⊎ ((load x' ≡ load x) × (total job_load jobs ≡ m))
      ⊎ ((load x' ≡ 0) × (total job_load jobs ≡ load x + m))

  module _ (s : Store V Err) (c : Ref) (x x' : ICell V Err) (jobs : List (Job V Err))
      (same : s.cells c ≡ x) where
    abbrev after : Store V Err
    after = queue (put s c x') jobs

    others_same :
        (n : ℕ)
        → load x' ≤ n
        → ((d : Ref) → same_ref c d ≡ false → load (s.cells d) ≡ 0)
        → (d : Ref) → load (after.cells d) ≤ n
    others_same n here others =
        put_rule s c x' (λ a y. load y ≤ n) here (λ a e. omega (arith, others a e))

    -- Nothing was there.
    first-Alone : (m : ℕ) → Moves m x x' jobs → Alone 0 s → Alone m after
    first-Alone m move a =
        let z = zero-Alone s a in
        let empty : load x ≡ 0 = ap load (sym same) ∙ z.0 c in
        let queued = total-append job_load s.jobs jobs in
        let here : load (after.cells c) ≡ load x' = ap load (put_here s c x') in
        elim (split m move empty) [
          | inl (some_here, none_queued) ↦ inl (
            c,
            omega (arith, here),
            λ d e. subst (λ b. load (if b then x' else s.cells d) ≡ 0) (sym e) (z.0 d),
            omega (arith, queued, z.1),
          )
          | inr (none_here, some_queued) ↦ inr (
            λ d. put_rule s c x' (λ a y. load y ≡ 0) none_here (λ a e. z.0 a) d,
            omega (arith, queued, z.1),
          )
        ]
      where
        split :
            (m : ℕ)
            → Moves m x x' jobs
            → load x ≡ 0
            → ((load x' ≤ m) × (total job_load jobs ≡ 0))
              ⊎ ((load x' ≡ 0) × (total job_load jobs ≤ m))
        split m (inl (a, b)) e = inl (omega arith, a)
        split m (inr (inl (a, b))) e = inr (omega arith, omega arith)
        split m (inr (inr (a, b))) e = inr (a, omega arith)

    nothing : Moves 0 x x' jobs → load x ≡ 0 → (load x' ≡ 0) × (total job_load jobs ≡ 0)
    nothing (inl (a, b)) e = (omega arith, a)
    nothing (inr (inl (a, b))) e = (omega arith, b)
    nothing (inr (inr (a, b))) e = (a, omega arith)

    moved :
        Moves 0 x x' jobs
        → ((load x' ≡ load x) × (total job_load jobs ≡ 0))
          ⊎ ((load x' ≡ 0) × (total job_load jobs ≡ load x))
    moved (inl (a, b)) = inl (omega arith, a)
    moved (inr (inl (a, b))) = inl (a, b)
    moved (inr (inr (a, b))) = inr (a, omega arith)

    -- Nothing is new.
    same-Alone : (n : ℕ) → Moves 0 x x' jobs → Alone n s → Alone n after
    same-Alone n move (inr (nowhere, few)) =
        let empty : load x ≡ 0 = ap load (sym same) ∙ nowhere c in
        let queued = total-append job_load s.jobs jobs in
        let still : (load x' ≡ 0) × (total job_load jobs ≡ 0) = nothing move empty in
        inr (
          λ d. put_rule s c x' (λ a y. load y ≡ 0) still.0 (λ a e. nowhere a) d,
          omega (arith, queued, still.1),
        )
    same-Alone n move (inl (c0, here, others, none_queued)) =
        let queued = total-append job_load s.jobs jobs in
        elim (Bool-cases (same_ref c0 c)) [
          | inr e ↦
              let empty : load x ≡ 0 = ap load (sym same) ∙ others c e in
              let still = nothing move empty in
              inl (
                c0,
                put_rule s c x' (λ a y. load (s.cells a) ≤ n → load y ≤ n)
                    (λ h. omega (arith, still.0)) (λ a e h. h) c0 here,
                λ d f.
                    put_rule s c x' (λ a y. load (s.cells a) ≡ 0 → load y ≡ 0) (λ h. still.0)
                      (λ a e h. h) d (others d f),
                omega (arith, queued, still.1),
              )
          | inl e ↦
              let at : c0 ≡ c = same_ref-eq c0 c e in
              let others' : (d : Ref) → same_ref c d ≡ false → load (s.cells d) ≡ 0 =
                subst (λ a. (d : Ref) → same_ref a d ≡ false → load (s.cells d) ≡ 0) at others in
              let few : load x ≤ n =
                subst (λ y. load y ≤ n) same (subst (λ a. load (s.cells a) ≤ n) at here) in
              elim (moved move) [
                | inl (kept, none) ↦ inl (
                  c,
                  omega (arith, ap load (put_here s c x')),
                  λ d f. subst (λ b. load (if b then x' else s.cells d) ≡ 0) (sym f) (others' d f),
                  omega (arith, queued),
                )
                | inr (none, all) ↦ inr (
                  λ d. put_rule s c x' (λ a y. load y ≡ 0) none (λ a f. others' a f) d,
                  omega (arith, queued),
                )
              ]
        ]

    pub changed-Alone : (n m : ℕ) → n + m ≤ 1 → Moves m x x' jobs → Alone n s → Alone (n + m) after
    changed-Alone zero m le move a = subst (λ k. Alone k after) (omega arith) (first-Alone m move a)
    changed-Alone (suc n) zero le move a =
        subst (λ k. Alone k after) (omega arith) (same-Alone (suc n) move a)
    changed-Alone (suc n) (suc m) le move a = absurd (omega arith)

  -- A cell that is emptied: what it had, and what is left.
  pub clear-Alone :
      (s : Store V Err) (c : Ref) (x' : ICell V Err) (n : ℕ)
      → load x' ≡ 0
      → Alone n s
      → (k : ℕ) × (k + load (s.cells c) ≤ n) × Alone k (put s c x')
  clear-Alone s c x' n empty (inr (nowhere, few)) = (
    n,
    omega (arith, nowhere c),
    inr (λ d. put_rule s c x' (λ a y. load y ≡ 0) empty (λ a e. nowhere a) d, few),
  )
  clear-Alone s c x' n empty (inl (c0, here, others, none_queued)) =
      elim (Bool-cases (same_ref c0 c)) [
        | inr e ↦ (
          n,
          omega (arith, others c e),
          inl (
            c0,
            put_rule s c x' (λ a y. load (s.cells a) ≤ n → load y ≤ n) (λ h. omega arith)
                (λ a f h. h) c0 here,
            λ d f.
                put_rule s c x' (λ a y. load (s.cells a) ≡ 0 → load y ≡ 0) (λ h. empty) (λ a g h. h)
                  d (others d f),
            none_queued,
          ),
        )
        | inl e ↦
            let at = same_ref-eq c0 c e in
            (
              0,
              subst (λ a. 0 + load (s.cells a) ≤ n) at (omega arith),
              inr (
                λ d.
                    put_rule s c x' (λ a y. load y ≡ 0) empty
                      (λ a f.
                        subst (λ b. (d : Ref) → same_ref b d ≡ false → load (s.cells d) ≡ 0) at
                          others a f)
                      d,
                omega arith,
              ),
            )
      ]
