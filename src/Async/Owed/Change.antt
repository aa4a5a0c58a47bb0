-- ===== src/Async/Owed/Change.antt =====
-- A change of one cell, with the jobs that are queued, and the fuel that tracking cells take.
use async_ery.Base.{
  ℕ, suc, ◌+◌, ◌≡◌, ◌<◌, ◌⊎◌, inl, inr, refl, sym, ap, subst, Bool-cases, true, false, List, [],
  Mem, if◌then◌else◌, arith, same_number,
}
use mathlib.Core.List.{append-nil}
use async_ery.Async.Store.{Ref, source, cell, same_ref, Callback, ICell, Job, Store, put, queue}
use async_ery.Async.Later.{Later, Later-refl}
use async_ery.Async.Sound.{In, Above}
use async_ery.Async.Sound.Cells.{same_ref-eq}
use async_ery.Async.Owed.{
  held, here, Calls, Computes, Queued, Owed, Tidy, Climbs, Linked, Keeping, append-AnyJob,
}

pub same_ref_refl : (c : Ref) → same_ref c c ≡ true
same_ref_refl (source k) = same_number k
same_ref_refl (cell n) = same_number n

-- Fuel for the way from a cell along the cells that are tracked.
abbrev pub Suffices : ℕ → ℕ → Ref → Type 0
Suffices next fuel (source k) = 0 < fuel
Suffices next fuel (cell n) = next < fuel + n

pub further :
    (next fuel : ℕ) (c d : Ref)
    → In next c
    → In next d
    → Above c d
    → Suffices next (suc fuel) c
    → Suffices next fuel d
further next fuel (source k) d i j a h = absurd a
further next fuel (cell n) (source k) i j a h = omega arith
further next fuel (cell n) (cell m) i j a h = omega arith

pub enough : (next : ℕ) (c : Ref) → Suffices next (suc next) c
enough next (source k) = omega arith
enough next (cell n) = omega arith

module _ {V Err : Type 0} where
  pub put_here : (s : Store V Err) (c : Ref) (x : ICell V Err) → (put s c x).cells c ≡ x
  put_here s c x = rw (same_ref_refl c) refl

  -- What holds of the new cell and of the others holds of all.
  pub put_rule :
      (s : Store V Err) (c : Ref) (x : ICell V Err) (P : Ref → ICell V Err → Type 0)
      → P c x
      → ((d : Ref) → same_ref c d ≡ false → P d (s.cells d))
      → (d : Ref) → P d ((put s c x).cells d)
  put_rule s c x P new old d = elim (Bool-cases (same_ref c d)) [
    | inl e ↦
        subst (λ b. P d (if b then x else s.cells d)) (sym e)
          (subst (λ a. P a x) (same_ref-eq c d e) new)
    | inr e ↦ subst (λ b. P d (if b then x else s.cells d)) (sym e) (old d e)
  ]

  pub queue_nothing : (s : Store V Err) → queue s [] ≡ s
  queue_nothing s = ap (λ jobs. record s { jobs = jobs }) (append-nil s.jobs)

  pub queue_links :
      (next : ℕ) (s : Store V Err) (jobs : List (Job V Err))
      → Linked next s
      → Linked next (queue s jobs)
  queue_links next s jobs l = record { climbs = l.climbs; tidy = l.tidy }

  module _ (next : ℕ) (s : Store V Err) (c : Ref) (x' : ICell V Err) (l : Linked next s) where
    -- A cell is replaced by one that is in order.
    pub put_links : Climbs next c x' → Tidy x' → Linked next (put s c x')
    put_links up tidy = record {
      climbs = λ d i.
          put_rule s c x' (λ a y. In next a → Climbs next a y) (λ j. up) (λ a e. l.climbs a) d i;
      tidy = λ d i. put_rule s c x' (λ a y. In next a → Tidy y) (λ j. tidy) (λ a e. l.tidy a) d i;
    }

    -- A cell is changed and jobs are queued; its callbacks still wait or are called.
    pub changed_keeps :
        (x : ICell V Err) (jobs : List (Job V Err))
        → s.cells c ≡ x
        → Climbs next c x'
        → Tidy x'
        → ((callback : Callback V)
            → Mem callback (held x)
            → Mem callback (held x') ⊎ Queued callback jobs)
        → Later x x'
        → Keeping next s (queue (put s c x') jobs)
    changed_keeps x jobs same up tidy calls later = record {
      linked = queue_links next (put s c x') jobs (put_links up tidy);
      later = λ d i.
          put_rule s c x' (λ d y. Later (s.cells d) y) (subst (λ y. Later y x') (sym same) later)
            (λ d e. Later-refl (s.cells d)) d;
      kept = λ d callback i m.
          elim (put_rule s c x'
            (λ a y. Mem callback (held (s.cells a)) → Mem callback (held y) ⊎ Queued callback jobs)
            (λ n. calls callback (subst (λ y. Mem callback (held y)) same n)) (λ a e n. inl n) d
            m) [
              | inl n ↦ inl (here n)
              | inr q ↦ inr (append-AnyJob (Calls callback) s.jobs jobs (inr q))
            ];
      queued = λ callback q. append-AnyJob (Calls callback) s.jobs jobs (inl q);
      computing = λ d v q. append-AnyJob (Computes d v) s.jobs jobs (inl q);
      log_same = refl;
    }

    -- A callback of the new cell, or of a queued job.
    pub changed-Owed :
        (jobs : List (Job V Err)) (callback : Callback V)
        → Mem callback (held x') ⊎ Queued callback jobs
        → Owed (queue (put s c x') jobs) c callback
    changed-Owed jobs callback (inl m) =
        inl (here (subst (λ y. Mem callback (held y)) (sym (put_here s c x')) m))
    changed-Owed jobs callback (inr q) = inr (append-AnyJob (Calls callback) s.jobs jobs (inr q))
