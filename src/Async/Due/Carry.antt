-- ===== src/Async/Due/Carry.antt =====
-- A step of the world leaves what cells are due, or does it.
use async_ery.Base.{
  dec_lt, ℕ, suc, ◌^◌, ◌≡◌, ◌<◌, ◌⊎◌, inl, inr, refl, sym, ◌∙◌, subst, Bool-cases, true, ◌==◌,
  equal, arith,
}
use async_ery.Async.Program.{Prog, Progs}
use async_ery.Async.Store.{Ref, cell, Callback, map_to, bind_to, any_to, all_to}
use async_ery.Async.Task.{World}
use async_ery.Async.Later.{valued, heard, expected, Counts}
use async_ery.Async.Sound.{In}
use async_ery.Async.Owed.Worlds.{In-more}
use async_ery.Async.Due.{Parent, Waiting, Due, AllDue}
use async_ery.Async.Program.{how_many, prog_at}
use async_ery.Async.Due.Counting.{find_other, mark, mark_self, mark_other, counted-mark}
use async_ery.Async.Due.Effects.{Carries, carry-Parent, carry-Target}

module _ {V Err : Type 0} (w w' : World V Err) where
  module _ {Ran : Callback V → Type 0} {Made : Ref → V → Type 0} (k : Carries w w' Ran Made) where
    -- The cell of a `when_any` or `when_all`.
    carry-Waiting :
        (report : ℕ → Callback V) (c : Ref) (ps : Progs V)
        → In w.next c
        → how_many ps < 2 ^ 64
        → ((i : ℕ)
            → Ran (report i)
            → Counts (suc (heard (w.store.cells c))) (w.store.cells c) (w'.store.cells c))
        → ((i j : ℕ) → Ran (report i) → Ran (report j) → i ≡ j)
        → Waiting w report (w.store.cells c) ps
        → (valued (w'.store.cells c) ≡ true) ⊎ Waiting w' report (w'.store.cells c) ps
    carry-Waiting report c ps i small done one x =
        let small' : expected (w.store.cells c) < 2 ^ 64 = omega (arith, x.total) in
        let kept : (j : ℕ)
            → j < how_many ps
            → ((x.reported j ≡ true) ⊎ Parent w' (prog_at ps j) (report j)) ⊎ Ran (report j) =
          λ j lt. elim (x.rest j lt) [
            | inl e ↦ inl (inl e)
            | inr p ↦ elim (carry-Parent w w' k (prog_at ps j) (report j) p) [
              | inl p' ↦ inl (inr p')
              | inr ran ↦ inr ran
            ]
          ] in
        let l = k.later c i in
        elim (Bool-cases (valued (w'.store.cells c))) [
          | inl v ↦ inl v
          | inr v ↦
              inr
                (elim (find_other (λ j. (x.reported j ≡ true) ⊎ Parent w' (prog_at ps j) (report j))
                  (λ j. Ran (report j)) (how_many ps) kept) [
                    | inl all ↦
                        let n = l.counts.more x.some_left small' v in
                        record {
                          total = l.counts.total_same ∙ x.total;
                          some_left = omega (arith, n.1);
                          reported = x.reported;
                          enough_heard = omega (arith, n.0, x.enough_heard);
                          rest = all;
                        }
                    | inr (i0, lt0, ran) ↦
                        let d = done i0 ran in
                        let n = d.more x.some_left small' v in
                        record {
                          total = d.total_same ∙ x.total;
                          some_left = omega (arith, n.1);
                          reported = mark x.reported i0;
                          enough_heard = omega (
                            arith,
                            n.0,
                            x.enough_heard,
                            counted-mark x.reported i0 (how_many ps),
                          );
                          rest = λ j lt. elim (Bool-cases (j == i0)) [
                            | inl e ↦ inl (
                                subst (λ a. mark x.reported i0 a ≡ true) (sym (equal e))
                                  (mark_self x.reported i0))
                            | inr e ↦ elim (kept j lt) [
                              | inl (inl r) ↦ inl (mark_other x.reported i0 j e ∙ r)
                              | inl (inr p) ↦ inr p
                              | inr ran' ↦
                                  let same : j ≡ i0 = one j i0 ran' ran in absurd (ground arith)
                            ]
                          ];
                        }
                  ])
        ]

    -- What a cell that there was is due.
    carry-Due :
        (n : ℕ) (p : Prog V)
        → n < w.next
        → w.made n ≡ p
        → Due w (cell n) (w.store.cells (cell n)) p
        → Due w' (cell n) (w'.store.cells (cell n)) p
    carry-Due n (Prog.source j) i m x = x
    carry-Due n (Prog.create v) i m (e, x) =
        let l = k.later (cell n) i in
        (
          l.same_kind ∙ e,
          elim x [
            | inl y ↦ inl (l.stays y)
            | inr c ↦ elim (k.computing (cell n) v c) [
              | inl c' ↦ inr c'
              | inr made ↦ inl (k.compute_done (cell n) v made i e)
            ]
          ],
        )
    carry-Due n (Prog.map q f) i m (e, x) =
        let l = k.later (cell n) i in
        (
          l.same_kind ∙ e,
          elim x [
            | inl y ↦ inl (l.stays y)
            | inr c ↦ elim (carry-Parent w w' k q (map_to (cell n) f) c) [
              | inl c' ↦ inr c'
              | inr ran ↦ inl (k.effect (map_to (cell n) f) ran i e)
            ]
          ],
        )
    carry-Due n (Prog.bind q f) i m (inl e) = inl ((k.later (cell n) i).same_kind ∙ e)
    carry-Due n (Prog.bind q f) i m (inr x) =
        let l = k.later (cell n) i in
        let c = cell n in
        inr record {
          same_kind = l.same_kind ∙ x.same_kind;
          error_in = In-more w.next w'.next (cell (suc n)) k.more x.error_in;
          error_kind = (k.later (cell (suc n)) x.error_in).same_kind ∙ x.error_kind;
          target = λ d e. elim (k.tracked n q f d i m x.error_kind e) [
            | inl old ↦ carry-Target w w' k f d (x.target d old)
            | inr new ↦ new
          ];
          next_step = elim x.next_step [
            | inl (d, e) ↦ inl (d, l.links d e)
            | inr p ↦ elim (carry-Parent w w' k q (bind_to c (cell (suc n)) f) p) [
              | inl p' ↦ inr p'
              | inr ran ↦ inl (k.effect (bind_to c (cell (suc n)) f) ran i x.same_kind)
            ]
          ];
        }
    carry-Due n (Prog.when_any ps) i m (e, x) =
        let l = k.later (cell n) i in
        (
          l.same_kind ∙ e,
          λ proper. elim (x proper) [
            | inl y ↦ inl (l.stays y)
            | inr y ↦
                carry-Waiting (any_to (cell n)) (cell n) ps i proper.1
                  (λ j ran. k.effect (any_to (cell n) j) ran i e) (k.any_once (cell n)) y
          ],
        )
    carry-Due n (Prog.when_all ps) i m (e, x) =
        let l = k.later (cell n) i in
        (
          l.same_kind ∙ e,
          λ proper. elim (x proper) [
            | inl y ↦ inl (l.stays y)
            | inr y ↦
                carry-Waiting (all_to (cell n)) (cell n) ps i proper.1
                  (λ j ran. k.effect (all_to (cell n) j) ran i e) (k.all_once (cell n)) y
          ],
        )

    pub carry-AllDue : (from : ℕ) → AllDue w from → AllDue w' w.next → AllDue w' from
    carry-AllDue from old new n f i = elim (dec_lt n w.next) [
      | yes lt ↦
          subst (Due w' (cell n) (w'.store.cells (cell n))) (sym (k.same n lt))
            (carry-Due n (w.made n) lt refl (old n f lt))
      | no ge ↦ new n (omega arith) i
    ]
