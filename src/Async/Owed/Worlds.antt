-- ===== src/Async/Owed/Worlds.antt =====
-- Making a task loses no callback.
use async_ery.Base.{
  ℕ, suc, ◌≡◌, ◌≤◌, ◌<◌, inl, refl, ◌∙◌, sym, subst, false, some, List, [], ◌∷◌, Mem, All, arith,
}
use async_ery.Cell.Result.{Result}
use async_ery.Async.Program.{Prog}
use async_ery.Async.Store.{Ref, source, cell, same_ref, Callback, ICell, Store, put}
use async_ery.Async.Task.{World, allocate}
use async_ery.Async.Later.{follows, Later, Later-refl, Later-trans}
use async_ery.Async.Sound.Worlds.{allocate-Extends}
use async_ery.Async.Owed.Change.{put_rule}
use async_ery.Async.Sound.{In}
use async_ery.Async.Owed.{
  held, here, Computing, Queued, Owed, Tidy, Climbs, Linked, Keeping, carry-Owed,
}

pub In-more : (n m : ℕ) (c : Ref) → n ≤ m → In n c → In m c
In-more n m (source k) le i = tt
In-more n m (cell j) le i = omega arith

pub All-In_more : (n m : ℕ) (cs : List Ref) → n ≤ m → All (In n) cs → All (In m) cs
All-In_more n m [] le i = tt
All-In_more n m (c ∷ cs) le i = (In-more n m c le i.0, All-In_more n m cs le i.1)

-- A cell that is not among the first `n`, or that of a source.
abbrev pub IsNew : ℕ → Ref → Type 0
IsNew n (source k) = Unit
IsNew n (cell m) = n ≤ m

pub less-IsNew : (n m : ℕ) (c : Ref) → n ≤ m → IsNew m c → IsNew n c
less-IsNew n m (source k) le i = tt
less-IsNew n m (cell j) le i = omega arith

old_ref : (n : ℕ) (c : Ref) → In (suc n) c → same_ref (cell n) c ≡ false → In n c
old_ref n (source k) i e = tt
old_ref n (cell m) i e = ground arith

pub other_ref : (n : ℕ) (c : Ref) → In n c → same_ref (cell n) c ≡ false
other_ref n (source k) i = refl
other_ref n (cell m) i = ground arith

module _ {V Err : Type 0} where
  abbrev pub LinkedWorld : World V Err → Type 0
  LinkedWorld w = Linked w.next w.store

  -- From one world to the other no callback is lost, and the log only grows.
  pub record Preserves (w w' : World V Err) : Type 0 where
    pub linked : LinkedWorld w'
    pub more : w.next ≤ w'.next
    pub same : (n : ℕ) → n < w.next → w'.made n ≡ w.made n
    pub later : (c : Ref) → In w.next c → Later (w.store.cells c) (w'.store.cells c)
    pub kept :
        (c : Ref) (callback : Callback V)
        → In w.next c
        → Mem callback (held (w.store.cells c))
        → Owed w'.store c callback
    pub computing : (c : Ref) (v : V) → Computing c v w.store.jobs → Computing c v w'.store.jobs
    pub queued :
        (callback : Callback V) → Queued callback w.store.jobs → Queued callback w'.store.jobs
    pub logged : (e : ℕ × Result V Err) → Mem e w.store.log → Mem e w'.store.log

  pub Preserves-Owed :
      {w w' : World V Err} {c : Ref} {callback : Callback V}
      → LinkedWorld w
      → Preserves w w'
      → In w.next c
      → Owed w.store c callback
      → Owed w'.store c callback
  Preserves-Owed l p i owed = carry-Owed l p.later p.kept p.queued i owed

  pub Preserves-refl : (w : World V Err) → LinkedWorld w → Preserves w w
  Preserves-refl w l = record {
    linked = l;
    more = omega arith;
    same = λ n lt. refl;
    later = λ c i. Later-refl (w.store.cells c);
    kept = λ c callback i m. inl (here m);
    queued = λ callback q. q;
    computing = λ c v q. q;
    logged = λ e m. m;
  }

  pub Preserves-trans : {u v w : World V Err} → Preserves u v → Preserves v w → Preserves u w
  Preserves-trans {u = u} {v = v} p q = record {
    linked = q.linked;
    more = omega (arith, p.more, q.more);
    same = λ n lt. q.same n (omega (arith, p.more)) ∙ p.same n lt;
    later = λ c i. Later-trans (p.later c i) (q.later c (In-more u.next v.next c p.more i));
    kept = λ c callback i m.
        Preserves-Owed p.linked q (In-more u.next v.next c p.more i) (p.kept c callback i m);
    queued = λ callback m. q.queued callback (p.queued callback m);
    computing = λ c v m. q.computing c v (p.computing c v m);
    logged = λ e m. q.logged e (p.logged e m);
  }

  -- A step that allocates nothing.
  pub stays-Preserves :
      (w : World V Err) (s : Store V Err)
      → Keeping w.next w.store s
      → Preserves w (record w { store = s })
  stays-Preserves w s k = record {
    linked = k.linked;
    more = omega arith;
    same = λ n lt. refl;
    later = k.later;
    kept = k.kept;
    queued = k.queued;
    computing = k.computing;
    logged = λ e m. subst (Mem e) (sym k.log_same) m;
  }

  pub allocate-Preserves :
      (w : World V Err) (x : ICell V Err) (p : Prog V)
      → LinkedWorld w
      → ((d : Ref) → follows x ≡ some d → ⊥)
      → Tidy x
      → Preserves w (allocate w x p)
  allocate-Preserves w x p l alone tidy =
      let n = w.next in
      let old : (c : Ref) → In n c → (put w.store (cell n) x).cells c ≡ w.store.cells c =
        λ c i. rw (other_ref n c i) refl in
      record {
        linked = record {
          climbs = λ c i.
              put_rule w.store (cell n) x (λ a y. In (suc n) a → Climbs (suc n) a y)
                (λ j d f. absurd (alone d f))
                (λ a e j d f.
                  let up = l.climbs a (old_ref n a j e) d f in
                  (In-more n (suc n) d (omega arith) up.0, up.1))
                c i;
          tidy = λ c i.
              put_rule w.store (cell n) x (λ a y. In (suc n) a → Tidy y) (λ j. tidy)
                (λ a e j. l.tidy a (old_ref n a j e)) c i;
        };
        more = omega arith;
        same = (allocate-Extends w x p).same;
        later =
            λ c i. subst (Later (w.store.cells c)) (sym (old c i)) (Later-refl (w.store.cells c));
        kept = λ c callback i m. inl (here (subst (λ y. Mem callback (held y)) (sym (old c i)) m));
        queued = λ callback q. q;
        computing = λ c v q. q;
        logged = λ e m. m;
      }
