-- ===== src/Async/Program.antt =====
-- What a client builds with the tasks of include/async_lib/task.h: an expression over value sources,
-- whose calls of the library are made from the inside out.
use async_ery.Base.{ℕ, zero, suc, ◌≡◌, ◌⊎◌, List, [], ◌∷◌}
use async_ery.Cell.Result.{Result, value, error}

-- `V` holds the values of all tasks; the vector of a `when_all` is one of them, by `pack`. The
-- functions of `map` and of `create` compute a value and do nothing else; that of `bind` builds a task.
mutual
  pub data Prog (V : Type 0) : Type 0 where
    source : ℕ → Prog V  -- the task of a value source
    create : V → Prog V  -- a task of a function that returns this value
    map : Prog V → (V → V) → Prog V
    bind : Prog V → (V → Prog V) → Prog V
    when_any : Progs V → Prog V
    when_all : Progs V → Prog V

  pub data Progs (V : Type 0) : Type 0 where
    nil : Progs V
    cons : Prog V → Progs V → Progs V

abbrev pub how_many : {V : Type 0} → Progs V → ℕ
how_many nil = 0
how_many (cons p ps) = suc (how_many ps)

-- The `i`-th expression, with a default out of range.
abbrev pub prog_at : {V : Type 0} → Progs V → ℕ → Prog V
prog_at nil i = source 0
prog_at (cons p ps) zero = p
prog_at (cons p ps) (suc i) = prog_at ps i

-- `map` of a function over a result.
abbrev pub mapped : {V Err : Type 0} → (V → V) → Result V Err → Result V Err
mapped f (value v) = value (f v)
mapped f (error e) = error e

module _ {V Err : Type 0} (blank : V) (pack : List V → V) (Src : ℕ → Result V Err → Type 0) where
  unfoldable mutual
    -- Which results a program may have, when those of source `k` satisfy `Src k`.
    pub Means : Prog V → Result V Err → Type 0
    Means (source k) r = Src k r
    Means (create v) r = r ≡ value v
    Means (map p f) r = (q : Result V Err) × Means p q × (r ≡ mapped f q)
    Means (bind p f) r =
        ((v : V) × Means p (value v) × Means (f v) r)
        ⊎ ((e : Err) × Means p (error e) × (r ≡ error e))
    Means (when_any ps) (value v) = Some ps (value v)
    Means (when_any ps) (error e) = Some ps (error e) × AllFail ps
    Means (when_all ps) (value v) = (vs : List V) × AllGive ps vs × (v ≡ pack vs)
    Means (when_all ps) (error e) = Some ps (error e)

    -- One of the programs may have this result.
    pub Some : Progs V → Result V Err → Type 0
    Some nil r = ⊥
    Some (cons p ps) r = Means p r ⊎ Some ps r

    -- Each of the programs may fail.
    pub AllFail : Progs V → Type 0
    AllFail nil = Unit
    AllFail (cons p ps) = ((e : Err) × Means p (error e)) × AllFail ps

    -- The programs may have these values, one for each, in their order.
    pub AllGive : Progs V → List V → Type 0
    AllGive nil [] = Unit
    AllGive nil (v ∷ vs) = ⊥
    AllGive (cons p ps) [] = ⊥
    AllGive (cons p ps) (v ∷ vs) = Means p (value v) × AllGive ps vs
