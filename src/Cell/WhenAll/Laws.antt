-- ===== src/Cell/WhenAll/Laws.antt =====
-- The result of a cell made by `when_all`, after the results of its cells in any order.
use async_ery.Base.{
  ℕ, ◌+◌, ◌^◌, ◌≤◌, ◌<◌, ◌≡◌, ◌∙◌, refl, ap, true, false, Option, none, some, List, [], ◌∷◌, length,
  leb, add_size, arith, Bool-cases, mod_below, set, replicate, map, length-replicate, inl, inr,
}
use mathlib.Core.List.{Memᴰ}
use mathlib.Core.Option.{none-ne-some}
use mathlib.Core.Option
use async_ery.Cell.Result.{Result, value, error}
use async_ery.Cell.WriteOnce.{write, write_error, write_result_to_value, write_result_at}
use async_ery.Scheduler.Context.{Context}
use async_ery.Cell.WhenAll.Slots.{tabulate, fill, length-fill, fill-set, tabulated}
use async_ery.Cell.WhenAll.{
  WhenAllCell, WhenAllExecutionContext, make, on_result, on_error, on_value, commit_resolved_value,
}

-- The first error of the results.
abbrev first_error {ℓ} : {T Err : Type ℓ} → List (Context × ℕ × Result T Err) → Option Err
first_error [] = none
first_error ((ctx, i, value v) ∷ events) = first_error events
first_error ((ctx, i, error x) ∷ events) = some x

-- Cell `i` succeeds with `f i`, and its callback is run in the context `at i`.
abbrev pub success {ℓ} :
    {T : Type ℓ} (Err : Type ℓ) → (ℕ → Context) → (ℕ → T) → ℕ → Context × ℕ × Result T Err
success Err at f i = (at i, i, value (f i))

module _ {ℓ} {C T Err : Type ℓ} where
  -- The results of the cells, in the order in which the scheduler runs the callbacks.
  pub run : WhenAllCell C T Err → List (Context × ℕ × Result T Err) → WhenAllCell C T Err
  run w [] = w
  run w ((ctx, i, result) ∷ events) = run (on_result w ctx i result).0 events

  abbrev holding :
      WhenAllExecutionContext T → Option (Result (List T) Err) → List C → WhenAllCell C T Err
  holding e v cs = record {
    execution_context = e;
    underlying_cell = record { value = v; callbacks = cs };
  }

  filled :
      (events : List (Context × ℕ × Result T Err)) (e : WhenAllExecutionContext T)
      (r : Result (List T) Err) (cs : List C)
      → (run (holding e (some r) cs) events).underlying_cell.value ≡ some r
  unfolding run on_result on_value on_error commit_resolved_value write write_error
      write_result_to_value write_result_at
  filled [] e r cs = refl
  filled ((ctx, i, error x) ∷ events) e r cs = filled events e r cs
  filled ((ctx, i, value v) ∷ events) e r cs =
      elim (Bool-cases (leb e.total_cells (add_size e.num_resolved_cells 1))) [
        | inl h ↦ rw (h, run, on_value) (filled events (commit_resolved_value e i v).1 r cs)
        | inr h ↦ rw (h, run, on_value) (filled events (commit_resolved_value e i v).1 r cs)
      ]

  -- A value that is not the last.
  committed :
      (n k i : ℕ) (slots : List T) (v : T) (ctx : Context) (cs : List C)
      → n < 2 ^ 64
      → k + 1 < n
      → (on_result {Err = Err}
          (holding
            (record { resolved_values = slots; num_resolved_cells = k; total_cells = n })
            none
            cs)
          ctx
          i
          (value v)).0
        ≡ holding
            (record {
              resolved_values = set slots i v;
              num_resolved_cells = k + 1;
              total_cells = n;
            })
            none
            cs
  unfolding on_result on_value commit_resolved_value
  committed n k i slots v ctx cs small h =
      let one : add_size k 1 ≡ k + 1 = mod_below (k + 1) (2 ^ 64) (omega arith) in
      let more : leb n (add_size k 1) ≡ false = ground (arith, one) in rw (more, on_value, one) refl

  all_values :
      (at : ℕ → Context) (f : ℕ → T) (order : List ℕ) (n k : ℕ) (slots : List T) (cs : List C)
      → n < 2 ^ 64
      → 0 < length order
      → k + length order ≡ n
      → (run
          (holding
            (record { resolved_values = slots; num_resolved_cells = k; total_cells = n })
            none
            cs)
          (map (success Err at f) order)).underlying_cell.value
        ≡ some (value (fill order f slots))
  unfolding run on_result on_value on_error commit_resolved_value write write_error
      write_result_to_value write_result_at
  all_values at f [] n k slots cs small pos all = absurd (omega arith)
  all_values at f (j ∷ []) n k slots cs small pos all =
      let last : leb n (add_size k 1) ≡ true =
        ground (arith, mod_below (k + 1) (2 ^ 64) (omega arith)) in
      rw (last, run, on_value) refl
  all_values at f (j ∷ j' ∷ js) n k slots cs small pos all =
      ap (λ w. (run w (map (success Err at f) (j' ∷ js))).underlying_cell.value)
        (committed n k j slots (f j) (at j) cs small (omega arith))
      ∙ all_values at f (j' ∷ js) n (k + 1) (set slots j (f j)) cs small (omega arith) (omega arith)

  fails :
      (events : List (Context × ℕ × Result T Err)) (n k : ℕ) (slots : List T) (cs : List C)
      (x : Err)
      → n < 2 ^ 64
      → k + length events ≤ n
      → first_error events ≡ some x
      → (run
          (holding
            (record { resolved_values = slots; num_resolved_cells = k; total_cells = n })
            none
            cs)
          events).underlying_cell.value
        ≡ some (error x)
  unfolding run on_result on_error write_error write_result_to_value write_result_at
  fails [] n k slots cs x small h e = absurd (none-ne-some _ e)
  fails ((ctx, i, error y) ∷ events) n k slots cs x small h e =
      filled events _ (error y) [] ∙ ap (Option.map error) e
  fails ((ctx, i, value v) ∷ []) n k slots cs x small h e = absurd (none-ne-some _ e)
  fails ((ctx, i, value v) ∷ event ∷ events) n k slots cs x small h e =
      ap (λ w. (run w (event ∷ events)).underlying_cell.value)
        (committed n k i slots v ctx cs small (omega arith))
      ∙ fails (event ∷ events) n (k + 1) (set slots i v) cs x small (omega arith) e

-- When the `n` cells (`n` positive and below `2 ^ 64`) all succeed, cell `i` with `f i`, and their
-- callbacks run once each in any order, the cell holds the `n` values in the order of the cells.
pub when_all-values {ℓ} :
    (C : Type ℓ) {T : Type ℓ} (Err : Type ℓ) (blank : T) (n : ℕ) (at : ℕ → Context) (f : ℕ → T)
    (order : List ℕ)
    → 0 < n
    → n < 2 ^ 64
    → length order ≡ n
    → ((i : ℕ) → i < n → Memᴰ i order)
    → (run (make {C = C} blank n) (map (success Err at f) order)).underlying_cell.value
      ≡ some (value (tabulate n f))
unfolding make
when_all-values C Err blank n at f order pos small len every =
    let wide = length-replicate n blank in
    all_values at f order n 0 (replicate n blank) [] small (omega arith) (omega arith)
    ∙ ap (λ vs. some (value vs))
        (tabulated n f (fill order f (replicate n blank)) blank
          (length-fill order f (replicate n blank) ∙ wide)
          (λ i lt. fill-set order f (replicate n blank) i blank (every i lt) (omega arith)))

-- When at most `n` callbacks have run (`n` below `2 ^ 64`) and an error was among the results, the
-- cell holds the first error.
pub when_all-error {ℓ} :
    (C : Type ℓ) {T Err : Type ℓ} (blank : T) (n : ℕ) (events : List (Context × ℕ × Result T Err))
    (x : Err)
    → n < 2 ^ 64
    → length events ≤ n
    → first_error events ≡ some x
    → (run (make {C = C} blank n) events).underlying_cell.value ≡ some (error x)
unfolding make
when_all-error C blank n events x small h e =
    fails events n 0 (replicate n blank) [] x small (omega arith) e
