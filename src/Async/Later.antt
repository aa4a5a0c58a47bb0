-- ===== src/Async/Later.antt =====
-- What a cell of the store becomes in the course of time.
use async_ery.Base.{
  ℕ, suc, ◌^◌, ◌≡◌, ◌<◌, ◌≤◌, inl, inr, refl, ◌∙◌, Bool, Bool-cases, true, false, Option, none,
  some, List, arith,
}
use async_ery.Cell.Result.{Result}
use async_ery.Cell.WriteOnce.{WriteOnceCell}
use async_ery.Cell.WriteOnce.Lossless.{filled}
use async_ery.Cell.TrackingOnce.{TrackingOnceCell}
use async_ery.Cell.WhenAny
use async_ery.Cell.WhenAny.{WhenAnyCell}
use async_ery.Cell.WhenAny.Lossless as AnyLossless
use async_ery.Cell.WhenAll
use async_ery.Cell.WhenAll.{WhenAllCell}
use async_ery.Cell.WhenAll.Lossless as AllLossless
use async_ery.Scheduler.Context.{Context}
use async_ery.Async.Store.{Ref, Callback, ICell, once, tracking, any, all}

pub data Kind : Type 0 where
  write_once follower first_of every_of : Kind

module _ {V Err : Type 0} where
  abbrev pub kind : ICell V Err → Kind
  kind (once k) = write_once
  kind (tracking t) = follower
  kind (any k) = first_of
  kind (all k) = every_of

  -- The cell that a cell tracks, and whether a cell has a value of its own.
  abbrev pub follows : ICell V Err → Option Ref
  follows (once k) = none
  follows (tracking t) = t.cell
  follows (any k) = none
  follows (all k) = none

  abbrev pub valued : ICell V Err → Bool
  valued (once k) = filled k.value
  valued (tracking t) = false
  valued (any k) = filled k.underlying_cell.value
  valued (all k) = filled k.underlying_cell.value

  -- The reports that a joined cell has counted, and those that it waits for.
  abbrev pub heard : ICell V Err → ℕ
  heard (once k) = 0
  heard (tracking t) = 0
  heard (any k) = k.exe_ctx.num_erroneous_cells
  heard (all k) = k.execution_context.num_resolved_cells

  abbrev pub expected : ICell V Err → ℕ
  expected (once k) = 0
  expected (tracking t) = 0
  expected (any k) = k.exe_ctx.total_cells
  expected (all k) = k.execution_context.total_cells

  -- The count of reports is right in this cell, when it is not resolved.
  pub record Counts (n : ℕ) (x x' : ICell V Err) : Type 0 where
    pub total_same : expected x' ≡ expected x
    pub more :
        heard x < expected x
        → expected x < 2 ^ 64
        → valued x' ≡ false
        → (n ≤ heard x') × heard x' < expected x'

  pub record Later (x x' : ICell V Err) : Type 0 where
    pub same_kind : kind x' ≡ kind x
    pub stays : valued x ≡ true → valued x' ≡ true
    pub links : (d : Ref) → follows x ≡ some d → follows x' ≡ some d
    pub counts : Counts (heard x) x x'

  pub Later-refl : (x : ICell V Err) → Later x x
  Later-refl x = record {
    same_kind = refl;
    stays = λ e. e;
    links = λ d e. e;
    counts = record { total_same = refl; more = λ lt small e. (omega arith, lt) };
  }

  pub Later-trans : {x y z : ICell V Err} → Later x y → Later y z → Later x z
  Later-trans {y = y} p q = record {
    same_kind = q.same_kind ∙ p.same_kind;
    stays = λ e. q.stays (p.stays e);
    links = λ d e. q.links d (p.links d e);
    counts = record {
      total_same = q.counts.total_same ∙ p.counts.total_same;
      more = λ lt small e. elim (Bool-cases (valued y)) [
        | inl t ↦ absurd (cc (q.stays t))
        | inr f ↦
            let a = p.counts.more lt small f in
            let b = q.counts.more a.1 (omega (arith, p.counts.total_same)) e in
            (omega (arith, a.0, b.0), b.1)
      ];
    };
  }

  -- A joined cell in which one report more was counted, or which was resolved.
  pub reported-Later :
      {x x' : ICell V Err}
      → kind x' ≡ kind x
      → (valued x ≡ true → valued x' ≡ true)
      → ((d : Ref) → follows x ≡ some d → follows x' ≡ some d)
      → Counts (suc (heard x)) x x'
      → Later x x'
  reported-Later k s f c = record {
    same_kind = k;
    stays = s;
    links = f;
    counts = record {
      total_same = c.total_same;
      more = λ lt small e. let n = c.more lt small e in (omega (arith, n.0), n.1);
    };
  }

  pub once-Later :
      (k k' : WriteOnceCell (Callback V) V Err)
      → (filled k.value ≡ true → filled k'.value ≡ true)
      → Later (once k) (once k')
  once-Later k k' s = record {
    same_kind = refl;
    stays = s;
    links = λ d e. e;
    counts = record { total_same = refl; more = λ lt small e. absurd (omega arith) };
  }

  pub tracking-Later :
      (t t' : TrackingOnceCell (Callback V) Ref)
      → ((d : Ref) → t.cell ≡ some d → t'.cell ≡ some d)
      → Later (tracking t) (tracking t')
  tracking-Later t t' f = record {
    same_kind = refl;
    stays = λ e. e;
    links = f;
    counts = record { total_same = refl; more = λ lt small e. absurd (omega arith) };
  }

  -- An `await` on a joined cell.
  pub any-Later :
      (k : WhenAnyCell (Callback V) V Err) (c : WriteOnceCell (Callback V) V Err)
      → (filled k.underlying_cell.value ≡ true → filled c.value ≡ true)
      → Later (any k) (any (record k { underlying_cell = c }))
  any-Later k c s = record {
    same_kind = refl;
    stays = s;
    links = λ d e. e;
    counts = record { total_same = refl; more = λ lt small e. (omega arith, lt) };
  }

  pub all-Later :
      (k : WhenAllCell (Callback V) V Err) (c : WriteOnceCell (Callback V) (List V) Err)
      → (filled k.underlying_cell.value ≡ true → filled c.value ≡ true)
      → Later (all k) (all (record k { underlying_cell = c }))
  all-Later k c s = record {
    same_kind = refl;
    stays = s;
    links = λ d e. e;
    counts = record { total_same = refl; more = λ lt small e. (omega arith, lt) };
  }

  pub any-Counts :
      (k : WhenAnyCell (Callback V) V Err) (ctx : Context) (r : Result V Err)
      → Counts (suc (heard (any k))) (any k) (any (WhenAny.on_result k ctx r).0)
  any-Counts k ctx r =
      let c = AnyLossless.on_result-counts k ctx r in
      record {
        total_same = c.0;
        more = λ lt small e. let n = c.1 lt small e in (n.0, omega (arith, n.1, c.0));
      }

  pub all-Counts :
      (k : WhenAllCell (Callback V) V Err) (ctx : Context) (i : ℕ) (r : Result V Err)
      → Counts (suc (heard (all k))) (all k) (all (WhenAll.on_result k ctx i r).0)
  all-Counts k ctx i r =
      let c = AllLossless.on_result-counts k ctx i r in
      record {
        total_same = c.0;
        more = λ lt small e. let n = c.1 lt small e in (n.0, omega (arith, n.1, c.0));
      }
