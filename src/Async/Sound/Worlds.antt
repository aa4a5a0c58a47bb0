-- ===== src/Async/Sound/Worlds.antt =====
-- Allocating a cell, and what the making of a task guarantees.
use async_ery.Base.{
  ℕ, suc, ◌≡◌, ◌≤◌, ◌<◌, refl, sym, ◌∙◌, subst, Bool-cases, inl, inr, false, ◌==◌, differ,
  same_number, if◌then◌else◌, List, arith,
}
use async_ery.Cell.Result.{Result}
use async_ery.Async.Program.{Prog}
use async_ery.Async.Store.{Ref, source, cell, same_ref, ICell}
use async_ery.Async.Task.{World, program_of, allocate}
use async_ery.Async.Sound.{In, Good, Sound}
use async_ery.Async.Sound.Cells.{same_ref-eq}
use async_ery.Async.Sound.Grow.{Good-grow, jobs_grow}

module _ {V Err : Type 0} where
  -- Cells were allocated, and the old ones stand for what they stood for.
  pub record Extends (w w' : World V Err) : Type 0 where
    pub more : w.next ≤ w'.next
    pub same : (n : ℕ) → n < w.next → w'.made n ≡ w.made n

  pub Extends-refl : (w : World V Err) → Extends w w
  Extends-refl w = record { more = omega arith; same = λ n lt. refl }

  pub Extends-trans : {u v w : World V Err} → Extends u v → Extends v w → Extends u w
  Extends-trans e f = record {
    more = omega (arith, e.more, f.more);
    same = λ n lt. f.same n (omega (arith, e.more)) ∙ e.same n lt;
  }

  -- The new cell stands for its program.
  pub made_here :
      (w : World V Err) (x : ICell V Err) (p : Prog V) → (allocate w x p).made w.next ≡ p
  made_here w x p = rw (same_number w.next)

  pub allocate-Extends :
      (w : World V Err) (x : ICell V Err) (p : Prog V) → Extends w (allocate w x p)
  allocate-Extends w x p = record {
    more = omega arith;
    same = λ n lt. let other : (n == w.next) ≡ false = differ (omega arith) in rw other refl;
  }

module _ {V Err : Type 0} (blank : V) (pack : List V → V) (Src : ℕ → Result V Err → Type 0)
    (User : ℕ → Result V Err → Type 0) where
  abbrev pub SoundWorld : World V Err → Type 0
  SoundWorld w = Sound blank pack Src User w.made w.next w.store

  old_or_new : (n : ℕ) (c : Ref) → In (suc n) c → same_ref (cell n) c ≡ false → In n c
  old_or_new n (source k) i e = tt
  old_or_new n (cell m) i e = ground arith

  pub allocate_sound :
      (w : World V Err) (x : ICell V Err) (p : Prog V)
      → SoundWorld w
      → Good blank pack Src User (allocate w x p).made (suc w.next) (cell w.next) x
      → SoundWorld (allocate w x p)
  allocate_sound w x p v h =
      let w' = allocate w x p in
      let grown = allocate-Extends w x p in
      record {
        cells = λ c i. elim (Bool-cases (same_ref (cell w.next) c)) [
          | inl e ↦
              subst
                (λ b. Good blank pack Src User w'.made w'.next c (if b then x else w.store.cells c))
                (sym e)
                (subst (λ a. Good blank pack Src User w'.made w'.next a x)
                  (same_ref-eq (cell w.next) c e) h)
          | inr e ↦
              let old = old_or_new w.next c i e in
              subst
                (λ b. Good blank pack Src User w'.made w'.next c (if b then x else w.store.cells c))
                (sym e)
                (Good-grow blank pack Src User grown.more grown.same c (w.store.cells c) old
                  (v.cells c old))
        ];
        jobs = jobs_grow blank pack Src User grown.more grown.same w.store.jobs v.jobs;
        log = v.log;
      }

  -- A task that stands for `p` was made.
  pub record Built (w : World V Err) (p : Prog V) (c : Ref) (w' : World V Err) : Type 0 where
    pub sound : SoundWorld w'
    pub grown : Extends w w'
    pub ref_in : In w'.next c
    pub stands : program_of w' c ≡ p
