-- ===== src/Async/Sound/Makes.antt =====
-- The making of a task by a function, by `map` and by `bind` keeps the world sound.
use async_ery.Base.{ℕ, suc, ◌≡◌, refl, sym, ap, ◌∙◌, subst, List, inl, inr, arith}
use mathlib.Core.Option.{none-ne-some}
use async_ery.Cell.Result.{Result, value, error}
use async_ery.Cell.WriteOnce
use async_ery.Cell.TrackingOnce
use async_ery.Async.Program.{Prog, mapped, Means}
use async_ery.Async.Store.{Ref, cell, map_to, bind_to, once, tracking}
use async_ery.Async.Task.{World, made_of, program_of, allocate, create, map, bind, await}
use async_ery.Async.Sound.{In, May, BindFits, Good}
use async_ery.Async.Sound.Grow.{In-grow, May-back}
use async_ery.Async.Sound.Cells.{Suits, queue_sound, await_sound}
use async_ery.Async.Sound.Worlds.{
  Extends, Extends-trans, made_here, allocate-Extends, SoundWorld, allocate_sound, Built,
}

module _ {V Err : Type 0} (blank : V) (pack : List V → V) (Src : ℕ → Result V Err → Type 0)
    (User : ℕ → Result V Err → Type 0) where
  -- A cell that stands for a program may have the results of the program.
  pub stands_for :
      (made : ℕ → Prog V) (next : ℕ) (c : Ref) (p : Prog V) (r : Result V Err)
      → made_of made c ≡ p
      → Means blank pack Src p r
      → May blank pack Src User made next c r
  stands_for made next c p r e m = subst (λ q. Means blank pack Src q r) (sym e) m

  empty_once :
      (made : ℕ → Prog V) (next : ℕ) (c : Ref)
      → Good blank pack Src User made next c (once WriteOnce.make)
  empty_once made next c = (λ r e. absurd (none-ne-some r e), tt)

  pub create_built :
      (w : World V Err) (v : V)
      → SoundWorld blank pack Src User w
      → Built blank pack Src User w (Prog.create v) (create w v).0 (create w v).1
  unfolding create Means
  create_built w v h =
      let p = Prog.create v in
      let w' = allocate w (once WriteOnce.make) p in
      let s =
        allocate_sound blank pack Src User w (once WriteOnce.make) p h
          (empty_once w'.made w'.next (cell w.next)) in
      let here = made_here w (once WriteOnce.make) p in
      record {
        sound =
            queue_sound blank pack Src User w'.made w'.next w'.store _ s
              ((omega arith, stands_for w'.made w'.next (cell w.next) p (value v) here refl), tt);
        grown =
            let g = allocate-Extends w (once WriteOnce.make) p in
            record { more = g.more; same = g.same };
        ref_in = omega arith;
        stands = here;
      }

  pub map_built :
      (w : World V Err) (c : Ref) (p : Prog V) (f : V → V)
      → SoundWorld blank pack Src User w
      → In w.next c
      → program_of w c ≡ p
      → Built blank pack Src User w (Prog.map p f) (map blank pack w c f).0 (map blank pack w c f).1
  unfolding map await Means
  map_built w c p f h i e =
      let q = Prog.map (program_of w c) f in
      let w' = allocate w (once WriteOnce.make) q in
      let g = allocate-Extends w (once WriteOnce.make) q in
      let s =
        allocate_sound blank pack Src User w (once WriteOnce.make) q h
          (empty_once w'.made w'.next (cell w.next)) in
      let here = made_here w (once WriteOnce.make) q in
      let suits : Suits blank pack Src User w'.made w'.next c (map_to (cell w.next) f) = λ r m. (
        omega arith,
        stands_for w'.made w'.next (cell w.next) q (mapped f r) here
            (r, May-back blank pack Src User g.more g.same c r i m, refl),
      ) in
      record {
        sound =
            await_sound blank pack Src User w'.made w'.next (suc w'.next) w'.store c
              (map_to (cell w.next) f) (In-grow blank pack Src User g.more g.same c i) suits s;
        grown = record { more = g.more; same = g.same };
        ref_in = omega arith;
        stands = here ∙ ap (λ a. Prog.map a f) e;
      }

  -- What the callback of `bind` is given fits its two cells.
  bind_fits :
      (w : World V Err) (made : ℕ → Prog V) (next : ℕ) (t d c : Ref) (f : V → Prog V)
      → made_of made t ≡ Prog.bind (program_of w c) f
      → made_of made d ≡ Prog.bind (program_of w c) f
      → (r : Result V Err) → Means blank pack Src (program_of w c) r
      → BindFits blank pack Src User made next t d f r
  unfolding Means
  bind_fits w made next t d c f et ed (value v) m =
      λ q mq. stands_for made next t (Prog.bind (program_of w c) f) q et (inl (v, m, mq))
  bind_fits w made next t d c f et ed (error x) m =
      stands_for made next d (Prog.bind (program_of w c) f) (error x) ed (inr (x, m, refl))

  pub bind_built :
      (w : World V Err) (c : Ref) (p : Prog V) (f : V → Prog V)
      → SoundWorld blank pack Src User w
      → In w.next c
      → program_of w c ≡ p
      → Built blank pack Src User w
          (Prog.bind p f)
          (bind blank pack w c f).0
          (bind blank pack w c f).1
  unfolding bind await
  bind_built w c p f h i e =
      let q = Prog.bind (program_of w c) f in
      let x = tracking TrackingOnce.make in
      let y = once WriteOnce.make in
      let w1 = allocate w x q in
      let w2 = allocate w1 y q in
      let g1 = allocate-Extends w x q in
      let g2 = allocate-Extends w1 y q in
      let g : Extends w w2 =
        Extends-trans {u = w} {v = w1} {w = w2} (record { more = g1.more; same = g1.same })
          (record { more = g2.more; same = g2.same }) in
      let s1 = allocate_sound blank pack Src User w x q h (λ d n. absurd (none-ne-some d n), tt) in
      let s2 =
        allocate_sound blank pack Src User w1 y q s1 (empty_once w2.made w2.next (cell w1.next)) in
      let error_here = made_here w1 y q in
      let track_here : w2.made w.next ≡ q = g2.same w.next (omega arith) ∙ made_here w x q in
      let same : (r : Result V Err)
          → May blank pack Src User w2.made w2.next (cell w1.next) r
          → May blank pack Src User w2.made w2.next (cell w.next) r =
        λ r m. subst (λ a. Means blank pack Src a r) (error_here ∙ sym track_here) m in
      let suits : Suits blank pack Src User w2.made w2.next c
          (bind_to (cell w.next) (cell w1.next) f) =
        λ r m. (
          omega arith,
          omega arith,
          bind_fits w w2.made w2.next (cell w.next) (cell w1.next) c f track_here error_here r
              (May-back blank pack Src User g.more g.same c r i m),
          same,
          omega arith,
          (program_of w c, track_here, May-back blank pack Src User g.more g.same c r i m),
          refl,
          error_here ∙ sym track_here,
        ) in
      record {
        sound =
            await_sound blank pack Src User w2.made w2.next (suc w2.next) w2.store c
              (bind_to (cell w.next) (cell w1.next) f)
              (In-grow blank pack Src User g.more g.same c i) suits s2;
        grown = record { more = g.more; same = g.same };
        ref_in = omega arith;
        stands = track_here ∙ ap (λ a. Prog.bind a f) e;
      }
