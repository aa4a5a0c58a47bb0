-- ===== src/Async/Due/Settled.antt =====
-- When no job is left and the value sources of an expression have their results, its task has one.
use async_ery.Base.{
  ℕ, zero, suc, ◌≡◌, ◌<◌, ◌⊎◌, inl, inr, refl, sym, ◌∙◌, ap, subst, true, some, List, [], arith,
}
use mathlib.Core.Option.{none-ne-some}
use async_ery.Cell.Result.{Result}
use async_ery.Async.Program.{Prog, Progs, nil, cons}
use async_ery.Async.Store.{
  Ref, source, cell, Callback, map_to, bind_to, any_to, all_to, ICell, once, tracking, any, all,
  read,
}
use async_ery.Async.Task.{World, program_of}
use async_ery.Async.Later.{write_once, kind, follows, valued}
use async_ery.Async.Sound.{In, after, Good, Leads}
use async_ery.Async.Sound.Worlds.{SoundWorld}
use async_ery.Async.Owed.{Queued, Computing}
use async_ery.Async.Owed.Change.{Suffices, further, enough}
use async_ery.Async.Owed.Worlds.{LinkedWorld}
use async_ery.Async.Owed.Quiet.{read-quiet}
use async_ery.Async.Due.{IsTaskCell, IsTask, task-In, Parent, Waiting, Due, AllDue}
use async_ery.Async.Program.{how_many, prog_at}
use async_ery.Async.Due.Counting.{counted_all}
use async_ery.Async.Due.Live.{Live, AllLive, valued_read, follows_read}

-- The cell of a source.
abbrev source_of : {V : Type 0} → Prog V → Ref
source_of (Prog.source k) = source k
source_of (Prog.create v) = source 0
source_of (Prog.map p f) = source 0
source_of (Prog.bind p f) = source 0
source_of (Prog.when_any ps) = source 0
source_of (Prog.when_all ps) = source 0

module _ {V Err : Type 0} (blank : V) (pack : List V → V) (Src : ℕ → Result V Err → Type 0)
    (User : ℕ → Result V Err → Type 0) (w : World V Err) (sound : SoundWorld blank pack Src User w)
    (l : LinkedWorld w) (due : AllDue w 0) (quiet : w.store.jobs ≡ []) where
  -- The result of a cell can be read.
  abbrev pub Settles : Ref → Type 0
  Settles c =
      (fuel : ℕ) → Suffices w.next fuel c → (r : Result V Err) × (read pack fuel w.store c ≡ some r)

  no_fuel : (c : Ref) → In w.next c → Suffices w.next 0 c → ⊥
  no_fuel (source k) i h = omega arith
  no_fuel (cell n) i h = omega arith

  valued-Settles : (c : Ref) → In w.next c → valued (w.store.cells c) ≡ true → Settles c
  unfolding read
  valued-Settles c i e zero h = absurd (no_fuel c i h)
  valued-Settles c i e (suc fuel) h = valued_read pack (w.store.cells c) (read pack fuel w.store) e

  follows-Settles :
      (c d : Ref) → In w.next c → follows (w.store.cells c) ≡ some d → Settles d → Settles c
  unfolding read
  follows-Settles c d i e go zero h = absurd (no_fuel c i h)
  follows-Settles c d i e go (suc fuel) h =
      let up = l.climbs c i d e in
      let r = go fuel (further w.next fuel c d i up.0 up.1 h) in
      (r.0, follows_read pack (w.store.cells c) (read pack fuel w.store) d e ∙ r.1)

  -- A task that has its result owes no callback.
  settled_owes_none :
      (p : Prog V)
      → ((c : Ref) → IsTask w c → program_of w c ≡ p → Settles c)
      → (callback : Callback V) → Parent w p callback
      → ⊥
  settled_owes_none p go callback (c, t, e, inr q) = subst (Queued callback) quiet q
  settled_owes_none p go callback (c, t, e, inl waits) =
      let i = task-In w c t in
      let r = go c t e (suc w.next) (enough w.next c) in
      read-quiet pack w.next (suc w.next) w.store c callback r.0 l i r.1 waits

  -- A joined cell does not wait when nobody owes it a report.
  joined_waits_not :
      (report : ℕ → Callback V) (x : ICell V Err) (ps : Progs V)
      → ((i : ℕ) → i < how_many ps → (callback : Callback V) → Parent w (prog_at ps i) callback → ⊥)
      → Waiting w report x ps
      → ⊥
  joined_waits_not report x ps none_owed wait =
      let all = counted_all wait.reported (how_many ps) (λ i lt. elim (wait.rest i lt) [
        | inl e ↦ e
        | inr p ↦ absurd (none_owed i lt (report i) p)
      ]) in
      omega (arith, wait.total, wait.some_left, wait.enough_heard, all)

  -- A task is that of a source, or its cell is due.
  abbrev Known : Ref → Prog V → Type 0
  Known c p =
      ((k : ℕ) × (c ≡ source k) × (p ≡ Prog.source k))
      ⊎ (IsTaskCell p (kind (w.store.cells c)) × Due w c (w.store.cells c) p)

  known : (p : Prog V) (c : Ref) → IsTask w c → program_of w c ≡ p → Known c p
  known p (source k) t e = inl (k, refl, sym e)
  known p (cell n) t e =
      let x = w.store.cells (cell n) in
      inr (
        subst (λ a. IsTaskCell a (kind x)) e t.1,
        subst (Due w (cell n) x) e (due n (omega arith) t.0),
      )

  Good-Leads :
      (c d : Ref) (x : ICell V Err)
      → Good blank pack Src User w.made w.next c x
      → follows x ≡ some d
      → Leads blank pack Src User w.made w.next c d (program_of w c)
  Good-Leads c d (tracking t) h e = (h.0 d e).2
  Good-Leads c d (once k) h e = absurd (none-ne-some d e)
  Good-Leads c d (any k) h e = absurd (none-ne-some d e)
  Good-Leads c d (all k) h e = absurd (none-ne-some d e)

  bound :
      (c d : Ref) (p : Prog V) (f : V → Prog V)
      → IsTask w c
      → program_of w c ≡ Prog.bind p f
      → follows (w.store.cells c) ≡ some d
      → Leads blank pack Src User w.made w.next c d (Prog.bind p f)
  bound c d p f t e g =
      subst (Leads blank pack Src User w.made w.next c d) e
        (Good-Leads c d (w.store.cells c) (sound.cells c (task-In w c t)) g)

  error_cell_is_no_task :
      (c d : Ref) (p : Prog V) (f : V → Prog V)
      → kind (w.store.cells (after c)) ≡ write_once
      → d ≡ after c
      → IsTask w d
      → program_of w d ≡ Prog.bind p f
      → ⊥
  error_cell_is_no_task c d p f e at t m = elim (known (Prog.bind p f) d t m) [
    | inl (j, here, same) ↦ cc same
    | inr (kind_d, x) ↦
        let once_d : kind (w.store.cells d) ≡ write_once =
          ap (λ b. kind (w.store.cells b)) at ∙ e in
        cc (sym once_d ∙ kind_d)
  ]

  mutual
    unfolding Live AllLive

    pub settled :
        (p : Prog V)
        → Live blank pack Src w.store p
        → (c : Ref) → IsTask w c
        → program_of w c ≡ p
        → Settles c
    settled (Prog.source k) live c t e = elim (known (Prog.source k) c t e) [
      | inl (j, here, same) ↦
          let at : c ≡ source k = here ∙ ap source_of (sym same) in
          valued-Settles c (task-In w c t)
            (subst (λ b. valued (w.store.cells b) ≡ true) (sym at) live)
      | inr x ↦ absurd x.1
    ]
    settled (Prog.create v) live c t e = elim (known (Prog.create v) c t e) [
      | inl (j, here, same) ↦ absurd (cc same)
      | inr (kind_c, (once_c, inl x)) ↦ valued-Settles c (task-In w c t) x
      | inr (kind_c, (once_c, inr q)) ↦ absurd (subst (Computing c v) quiet q)
    ]
    settled (Prog.map p f) live c t e = elim (known (Prog.map p f) c t e) [
      | inl (j, here, same) ↦ absurd (cc same)
      | inr (kind_c, (once_c, inl x)) ↦ valued-Settles c (task-In w c t) x
      | inr (kind_c, (once_c, inr q)) ↦ absurd (settled_owes_none p (settled p live) (map_to c f) q)
    ]
    settled (Prog.bind p f) live c t e = elim (known (Prog.bind p f) c t e) [
      | inl (j, here, same) ↦ absurd (cc same)
      | inr (kind_c, inl once_c) ↦ absurd (cc (sym once_c ∙ kind_c))
      | inr (kind_c, inr x) ↦ elim x.next_step [
        | inl (d, g) ↦ follows-Settles c d (task-In w c t) g (elim (x.target d g) [
          | inl (td, any_value) ↦ elim (bound c d p f t e g) [
            | inl (v, m, ed) ↦ settled (f v) (live.1 v m) d td ed
            | inr (at, ed) ↦ absurd (error_cell_is_no_task c d p f x.error_kind at td ed)
          ]
          | inr (i, y) ↦ valued-Settles d i y
        ])
        | inr q ↦ absurd (settled_owes_none p (settled p live.0) (bind_to c (after c) f) q)
      ]
    ]
    settled (Prog.when_any ps) live c t e = elim (known (Prog.when_any ps) c t e) [
      | inl (j, here, same) ↦ absurd (cc same)
      | inr (kind_c, (any_c, x)) ↦ elim (x live.0) [
        | inl y ↦ valued-Settles c (task-In w c t) y
        | inr y ↦ absurd (joined_waits_not (any_to c) _ ps (all_settled ps live.1) y)
      ]
    ]
    settled (Prog.when_all ps) live c t e = elim (known (Prog.when_all ps) c t e) [
      | inl (j, here, same) ↦ absurd (cc same)
      | inr (kind_c, (all_c, x)) ↦ elim (x live.0) [
        | inl y ↦ valued-Settles c (task-In w c t) y
        | inr y ↦ absurd (joined_waits_not (all_to c) _ ps (all_settled ps live.1) y)
      ]
    ]

    all_settled :
        (ps : Progs V)
        → AllLive blank pack Src w.store ps
        → (i : ℕ) → i < how_many ps
        → (callback : Callback V) → Parent w (prog_at ps i) callback
        → ⊥
    all_settled nil live i lt callback owed = absurd (omega arith)
    all_settled (cons p ps) live zero lt callback owed =
        settled_owes_none p (settled p live.0) callback owed
    all_settled (cons p ps) live (suc i) lt callback owed =
        all_settled ps live.1 i (omega arith) callback owed
