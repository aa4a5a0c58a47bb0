-- ===== src/Async/Sound/Build.antt =====
-- Building the task of an expression keeps the world sound, and the task stands for the expression.
use async_ery.Base.{ℕ, ◌≡◌, refl, ◌∙◌, List, ◌∷◌, All}
use async_ery.Cell.Result.{Result}
use async_ery.Async.Program.{Prog, Progs, nil, cons}
use async_ery.Async.Store.{Ref}
use async_ery.Async.Task.{World, programs_of, build, build_all}
use async_ery.Async.Sound.{In}
use async_ery.Async.Sound.Grow.{In-grow, same_at}
use async_ery.Async.Sound.Worlds.{Extends, Extends-refl, Extends-trans, SoundWorld, Built}
use async_ery.Async.Sound.Makes.{create_built, map_built, bind_built}
use async_ery.Async.Sound.Joins.{when_any_built, when_all_built}

module _ {V Err : Type 0} (blank : V) (pack : List V → V) (Src : ℕ → Result V Err → Type 0)
    (User : ℕ → Result V Err → Type 0) where
  -- The tasks of a list of expressions were made.
  record BuiltAll (w : World V Err) (ps : Progs V) (cs : List Ref) (w' : World V Err) : Type 0 where
    sound : SoundWorld blank pack Src User w'
    grown : Extends w w'
    refs_in : All (In w'.next) cs
    stand : programs_of w' cs ≡ ps

  -- One step more.
  then :
      {u w : World V Err} {p q : Prog V} {c d : Ref} {w' : World V Err}
      → Built blank pack Src User u p c w
      → Built blank pack Src User w q d w'
      → Built blank pack Src User u q d w'
  then b b' = record {
    sound = b'.sound;
    grown = Extends-trans b.grown b'.grown;
    ref_in = b'.ref_in;
    stands = b'.stands;
  }

  then_all :
      {u w : World V Err} {ps : Progs V} {q : Prog V} {cs : List Ref} {d : Ref} {w' : World V Err}
      → BuiltAll u ps cs w
      → Built blank pack Src User w q d w'
      → Built blank pack Src User u q d w'
  then_all b b' = record {
    sound = b'.sound;
    grown = Extends-trans b.grown b'.grown;
    ref_in = b'.ref_in;
    stands = b'.stands;
  }

  also :
      {u w w' : World V Err} {p : Prog V} {ps : Progs V} {c : Ref} {cs : List Ref}
      → Built blank pack Src User u p c w
      → BuiltAll w ps cs w'
      → BuiltAll u (cons p ps) (c ∷ cs) w'
  also b bs = record {
    sound = bs.sound;
    grown = Extends-trans b.grown bs.grown;
    refs_in = (In-grow blank pack Src User bs.grown.more bs.grown.same _ b.ref_in, bs.refs_in);
    stand =
        let here = same_at blank pack Src User bs.grown.more bs.grown.same _ b.ref_in ∙ b.stands in
        rw (here, bs.stand) refl;
  }

  mutual
    unfolding build build_all

    pub build_built :
        (p : Prog V) (w : World V Err)
        → SoundWorld blank pack Src User w
        → Built blank pack Src User w p (build blank pack p w).0 (build blank pack p w).1
    build_built (Prog.source k) w h = record {
      sound = h;
      grown = Extends-refl w;
      ref_in = tt;
      stands = refl;
    }
    build_built (Prog.create v) w h = create_built blank pack Src User w v h
    build_built (Prog.map p f) w h =
        let b = build_built p w h in
        then b (map_built blank pack Src User _ _ p f b.sound b.ref_in b.stands)
    build_built (Prog.bind p f) w h =
        let b = build_built p w h in
        then b (bind_built blank pack Src User _ _ p f b.sound b.ref_in b.stands)
    build_built (Prog.when_any ps) w h =
        let b = build_all_built ps w h in
        then_all b (when_any_built blank pack Src User _ _ ps b.sound b.refs_in b.stand)
    build_built (Prog.when_all ps) w h =
        let b = build_all_built ps w h in
        then_all b (when_all_built blank pack Src User _ _ ps b.sound b.refs_in b.stand)

    build_all_built :
        (ps : Progs V) (w : World V Err)
        → SoundWorld blank pack Src User w
        → BuiltAll w ps (build_all blank pack ps w).0 (build_all blank pack ps w).1
    build_all_built nil w h = record {
      sound = h;
      grown = Extends-refl w;
      refs_in = tt;
      stand = refl;
    }
    build_all_built (cons p ps) w h =
        let b = build_built p w h in also b (build_all_built ps _ b.sound)
