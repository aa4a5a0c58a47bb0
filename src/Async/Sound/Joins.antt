-- ===== src/Async/Sound/Joins.antt =====
-- The making of a task by `when_any` and by `when_all` keeps the world sound.
use async_ery.Base.{
  ℕ, zero, suc, ◌+◌, ◌≡◌, ◌≤◌, ◌<◌, sym, ap, ◌∙◌, subst, List, [], ◌∷◌, length, All, inl, inr,
  arith,
}
use mathlib.Core.Option.{none-ne-some}
use async_ery.Cell.Result.{Result, value, error}
use async_ery.Cell.WhenAny
use async_ery.Cell.WhenAll
use async_ery.Async.Program.{Prog, Progs, nil, cons, how_many, prog_at, Means, Some}
use async_ery.Async.Store.{Ref, cell, any_to, all_to, any, all, Store, await}
use async_ery.Async.Task.{
  World, program_of, programs_of, allocate, when_any, when_all, await_any, await_all,
}
use async_ery.Async.Sound.{In, InAny, InAll, AllFits, AnyFits}
use async_ery.Async.Sound.Grow.{In-grow, May-back}
use async_ery.Async.Sound.Cells.{Keeps, Suits, await_sound}
use async_ery.Async.Sound.Worlds.{made_here, allocate-Extends, SoundWorld, allocate_sound, Built}

module _ {V Err : Type 0} (blank : V) (pack : List V → V) (Src : ℕ → Result V Err → Type 0)
    (User : ℕ → Result V Err → Type 0) where
  -- The loops of the two constructors, in a world that grew out of `w` and has the new cell `d`.
  module _ (w : World V Err) {made : ℕ → Prog V} {next : ℕ} (le : w.next ≤ next)
      (same : (n : ℕ) → n < w.next → made n ≡ w.made n) (d : Ref) (here : In next d) where
    await_any_sound :
        (fuel : ℕ) (s : Store V Err) (i : ℕ) (cs : List Ref)
        → All (In w.next) cs
        → ((j : ℕ) (r : Result V Err)
            → j < how_many (programs_of w cs)
            → Means blank pack Src (prog_at (programs_of w cs) j) r
            → AnyFits blank pack Src User made next d (i + j) r)
        → Keeps blank pack Src User made next s
        → Keeps blank pack Src User made next (await_any blank pack fuel s i cs d)
    unfolding await_any
    await_any_sound fuel s i [] h sub v = v
    await_any_sound fuel s i (c ∷ cs) h sub v =
        let here_fits : (r : Result V Err)
            → Means blank pack Src (program_of w c) r
            → AnyFits blank pack Src User made next d i r =
          λ r m.
            let zero_more : i + 0 ≡ i = omega arith in
            subst (λ k. AnyFits blank pack Src User made next d k r) zero_more
              (sub 0 r (omega arith) m) in
        let suits : Suits blank pack Src User made next c (any_to d i) =
          λ r m. (here, here_fits r (May-back blank pack Src User le same c r h.0 m)) in
        await_any_sound fuel (await pack fuel s c (any_to d i)) (i + 1) cs h.1
          (λ j r lt m.
            let next_place : i + suc j ≡ i + 1 + j = omega arith in
            subst (λ k. AnyFits blank pack Src User made next d k r) next_place
              (sub (suc j) r (omega arith) m))
          (await_sound blank pack Src User made next fuel s c (any_to d i)
            (In-grow blank pack Src User le same c h.0) suits v)

    await_all_sound :
        (fuel : ℕ) (s : Store V Err) (i : ℕ) (cs : List Ref)
        → All (In w.next) cs
        → ((j : ℕ) (r : Result V Err)
            → j < how_many (programs_of w cs)
            → Means blank pack Src (prog_at (programs_of w cs) j) r
            → AllFits blank pack Src User made next d (i + j) r)
        → Keeps blank pack Src User made next s
        → Keeps blank pack Src User made next (await_all blank pack fuel s i cs d)
    unfolding await_all
    await_all_sound fuel s i [] h sub v = v
    await_all_sound fuel s i (c ∷ cs) h sub v =
        let here_fits : (r : Result V Err)
            → Means blank pack Src (program_of w c) r
            → AllFits blank pack Src User made next d i r =
          λ r m.
            let zero_more : i + 0 ≡ i = omega arith in
            subst (λ k. AllFits blank pack Src User made next d k r) zero_more
              (sub 0 r (omega arith) m) in
        let suits : Suits blank pack Src User made next c (all_to d i) =
          λ r m. (here, here_fits r (May-back blank pack Src User le same c r h.0 m)) in
        await_all_sound fuel (await pack fuel s c (all_to d i)) (i + 1) cs h.1
          (λ j r lt m.
            let next_place : i + suc j ≡ i + 1 + j = omega arith in
            subst (λ k. AllFits blank pack Src User made next d k r) next_place
              (sub (suc j) r (omega arith) m))
          (await_sound blank pack Src User made next fuel s c (all_to d i)
            (In-grow blank pack Src User le same c h.0) suits v)

  -- What one of the joined tasks may give.
  pub Some-at :
      (ps : Progs V) (i : ℕ) (r : Result V Err)
      → i < how_many ps
      → Means blank pack Src (prog_at ps i) r
      → Some blank pack Src ps r
  unfolding Some
  Some-at nil i r lt m = absurd (omega arith)
  Some-at (cons p ps) zero r lt m = inl m
  Some-at (cons p ps) (suc i) r lt m = inr (Some-at ps i r (omega arith) m)

  module _ (made : ℕ → Prog V) (next : ℕ) (n : ℕ) (ps : Progs V) where
    any_fits :
        made n ≡ Prog.when_any ps
        → (i : ℕ) (r : Result V Err) → i < how_many ps
        → Means blank pack Src (prog_at ps i) r
        → AnyFits blank pack Src User made next (cell n) i r
    unfolding Means
    any_fits e i (value v) lt m =
        subst (λ a. Means blank pack Src a (value v)) (sym e) (Some-at ps i (value v) lt m)
    any_fits e i (error x) lt m =
        subst (λ a. InAny blank pack Src User a i (error x)) (sym e) (lt, m)

    all_fits :
        made n ≡ Prog.when_all ps
        → (i : ℕ) (r : Result V Err) → i < how_many ps
        → Means blank pack Src (prog_at ps i) r
        → AllFits blank pack Src User made next (cell n) i r
    unfolding Means
    all_fits e i (value v) lt m =
        subst (λ a. InAll blank pack Src User a i (value v)) (sym e) (lt, m)
    all_fits e i (error x) lt m =
        subst (λ a. Means blank pack Src a (error x)) (sym e) (Some-at ps i (error x) lt m)

  pub when_any_built :
      (w : World V Err) (cs : List Ref) (ps : Progs V)
      → SoundWorld blank pack Src User w
      → All (In w.next) cs
      → programs_of w cs ≡ ps
      → Built blank pack Src User w
          (Prog.when_any ps)
          (when_any blank pack w cs).0
          (when_any blank pack w cs).1
  unfolding when_any WhenAny.make
  when_any_built w cs ps h i e =
      let q = Prog.when_any (programs_of w cs) in
      let x = any (WhenAny.make (length cs)) in
      let w' = allocate w x q in
      let g = allocate-Extends w x q in
      let s = allocate_sound blank pack Src User w x q h (λ r n. absurd (none-ne-some r n), tt) in
      let here = made_here w x q in
      record {
        sound =
            await_any_sound w g.more g.same (cell w.next) (omega arith) (suc w'.next) w'.store 0 cs
              i
              (λ j r lt m.
                let plus : j ≡ 0 + j = omega arith in
                subst (λ k. AnyFits blank pack Src User w'.made w'.next (cell w.next) k r) plus
                  (any_fits w'.made w'.next w.next (programs_of w cs) here j r lt m))
              s;
        grown = record { more = g.more; same = g.same };
        ref_in = omega arith;
        stands = here ∙ ap Prog.when_any e;
      }

  pub when_all_built :
      (w : World V Err) (cs : List Ref) (ps : Progs V)
      → SoundWorld blank pack Src User w
      → All (In w.next) cs
      → programs_of w cs ≡ ps
      → Built blank pack Src User w
          (Prog.when_all ps)
          (when_all blank pack w cs).0
          (when_all blank pack w cs).1
  unfolding when_all WhenAll.make
  when_all_built w cs ps h i e =
      let q = Prog.when_all (programs_of w cs) in
      let x = all (WhenAll.make blank (length cs)) in
      let w' = allocate w x q in
      let g = allocate-Extends w x q in
      let here = made_here w x q in
      let s = allocate_sound blank pack Src User w x q h (λ r n. absurd (none-ne-some r n), tt) in
      record {
        sound =
            await_all_sound w g.more g.same (cell w.next) (omega arith) (suc w'.next) w'.store 0 cs
              i
              (λ j r lt m.
                let plus : j ≡ 0 + j = omega arith in
                subst (λ k. AllFits blank pack Src User w'.made w'.next (cell w.next) k r) plus
                  (all_fits w'.made w'.next w.next (programs_of w cs) here j r lt m))
              s;
        grown = record { more = g.more; same = g.same };
        ref_in = omega arith;
        stands = here ∙ ap Prog.when_all e;
      }
