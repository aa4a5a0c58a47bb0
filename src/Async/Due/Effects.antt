-- ===== src/Async/Due/Effects.antt =====
-- What a step of the world does, as far as what cells are due can tell.
use async_ery.Base.{ℕ, suc, ◌≡◌, ◌≤◌, ◌<◌, ◌⊎◌, inl, inr, refl, sym, ◌∙◌, subst, true, some}
use async_ery.Async.Program.{Prog}
use async_ery.Async.Store.{Ref, source, cell, Callback, map_to, bind_to, any_to, all_to, user}
use async_ery.Async.Task.{World, program_of}
use async_ery.Async.Later.{
  Kind, write_once, follower, first_of, every_of, kind, follows, valued, heard, Counts, Later,
}
use async_ery.Async.Sound.{In}
use async_ery.Async.Owed.{Owed, Computing}
use async_ery.Async.Owed.Worlds.{In-more}
use async_ery.Async.Due.{task-In, IsTaskCell, IsTask, Parent, Target}

module _ {V Err : Type 0} (w w' : World V Err) where
  abbrev pub Written : Ref → Type 0
  Written c = In w.next c → kind (w.store.cells c) ≡ write_once → valued (w'.store.cells c) ≡ true

  abbrev pub Counted : Ref → Kind → Type 0
  Counted c a =
      In w.next c
      → kind (w.store.cells c) ≡ a
      → Counts (suc (heard (w.store.cells c))) (w.store.cells c) (w'.store.cells c)

  -- What a call of a callback does to the cell that it is for.
  abbrev pub Effect : Callback V → Type 0
  Effect (map_to c f) = Written c
  Effect (bind_to c e f) =
      In w.next c
      → kind (w.store.cells c) ≡ follower
      → (d : Ref) × (follows (w'.store.cells c) ≡ some d)
  Effect (any_to c i) = Counted c first_of
  Effect (all_to c i) = Counted c every_of
  Effect (user n) = Unit

  -- The cell of a `bind` comes to track its target only.
  abbrev pub Tracked : Type 0
  Tracked =
      (n : ℕ) (q : Prog V) (f : V → Prog V) (d : Ref)
      → n < w.next
      → w.made n ≡ Prog.bind q f
      → kind (w.store.cells (cell (suc n))) ≡ write_once
      → follows (w'.store.cells (cell n)) ≡ some d
      → (follows (w.store.cells (cell n)) ≡ some d) ⊎ Target w' f d

  -- What a step does, where it may call callbacks of `Ran` and compute what `Made` says.
  pub record Carries (Ran : Callback V → Type 0) (Made : Ref → V → Type 0) : Type 0 where
    pub more : w.next ≤ w'.next
    pub same : (n : ℕ) → n < w.next → w'.made n ≡ w.made n
    pub later : (c : Ref) → In w.next c → Later (w.store.cells c) (w'.store.cells c)
    pub owed :
        (c : Ref) (callback : Callback V)
        → In w.next c
        → Owed w.store c callback
        → Owed w'.store c callback ⊎ Ran callback
    pub computing :
        (c : Ref) (v : V) → Computing c v w.store.jobs → Computing c v w'.store.jobs ⊎ Made c v
    pub compute_done : (c : Ref) (v : V) → Made c v → Written c
    pub effect : (callback : Callback V) → Ran callback → Effect callback
    pub tracked : Tracked
    pub any_once : (c : Ref) (i j : ℕ) → Ran (any_to c i) → Ran (any_to c j) → i ≡ j
    pub all_once : (c : Ref) (i j : ℕ) → Ran (all_to c i) → Ran (all_to c j) → i ≡ j

  module _ {Ran : Callback V → Type 0} {Made : Ref → V → Type 0} (k : Carries Ran Made) where
    pub carry-program : (c : Ref) → In w.next c → program_of w' c ≡ program_of w c
    carry-program (source n) i = refl
    carry-program (cell n) i = k.same n i

    pub carry-IsTask : (c : Ref) → IsTask w c → IsTask w' c
    carry-IsTask (source n) t = tt
    carry-IsTask (cell n) t = (
      In-more w.next w'.next (cell n) k.more t.0,
      subst (λ a. IsTaskCell a (kind (w'.store.cells (cell n)))) (sym (k.same n t.0))
          (subst (IsTaskCell (w.made n)) (sym (k.later (cell n) t.0).same_kind) t.1),
    )

    pub carry-Parent :
        (q : Prog V) (callback : Callback V)
        → Parent w q callback
        → Parent w' q callback ⊎ Ran callback
    carry-Parent q callback (c, t, e, o) =
        let i = task-In w c t in
        elim (k.owed c callback i o) [
          | inl o' ↦ inl (c, carry-IsTask c t, carry-program c i ∙ e, o')
          | inr ran ↦ inr ran
        ]

    pub carry-Target : (f : V → Prog V) (d : Ref) → Target w f d → Target w' f d
    carry-Target f d (inl (t, (v, e))) =
        inl (carry-IsTask d t, (v, carry-program d (task-In w d t) ∙ e))
    carry-Target f d (inr (i, e)) = inr (In-more w.next w'.next d k.more i, (k.later d i).stays e)
