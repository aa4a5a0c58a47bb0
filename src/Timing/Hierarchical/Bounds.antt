-- ===== src/Timing/Hierarchical/Bounds.antt =====
-- When the wheels are well formed, and the indices of the operations.
use native.Mathlib.Nat.{mod-lt}
use async_ery.Base.{
  ℕ, zero, suc, ◌+◌, ◌-◌, ◌%◌, ◌^◌, ◌≤◌, ◌<◌, ◌≡◌, refl, ◌∙◌, inl, inr, List, [], ◌∷◌, length,
  get_or, set, length-set, All, All-get_or, All-set, ◌==◌, ◌||◌, Bool-cases, arith, add_size,
  sub_size, mul_size,
}
use async_ery.Timing.Hierarchical.{
  TimerEntry, Wheel, no_wheel, fits_in, find_wheel, load_once, insert, load_entry, load_entries,
  turn, load_timers_from_wheel,
}

pub record IsWheel {ℓ} {A : Type ℓ} (w : Wheel A) : Type 0 where
  pub some_buckets : 0 < w.num_buckets
  pub allocated : length w.buckets ≡ w.num_buckets
  pub index_in : w.curr_bucket_index < w.num_buckets

pub record IsValid {ℓ} {A : Type ℓ} (wheels : List (Wheel A)) : Type 0 where
  pub some_wheel : 0 < length wheels
  pub each : All IsWheel wheels

module _ {ℓ} {A : Type ℓ} where
  pub insert-IsWheel : (w : Wheel A) (ticks : ℕ) (t : A) → IsWheel w → IsWheel (insert w ticks t)
  unfolding insert
  insert-IsWheel w ticks t v = record {
    some_buckets = v.some_buckets;
    allocated = length-set w.buckets _ _ ∙ v.allocated;
    index_in = v.index_in;
  }

  pub load_entry-IsWheel : (e : TimerEntry A) (w : Wheel A) → IsWheel w → IsWheel (load_entry e w)
  unfolding load_entry
  load_entry-IsWheel e w v = record {
    some_buckets = v.some_buckets;
    allocated = length-set w.buckets _ _ ∙ v.allocated;
    index_in = v.index_in;
  }

  load_entries-IsWheel :
      (es : List (TimerEntry A)) (w : Wheel A) → IsWheel w → IsWheel (load_entries es w)
  unfolding load_entries
  load_entries-IsWheel [] w v = v
  load_entries-IsWheel (e ∷ es) w v = load_entries-IsWheel es _ (load_entry-IsWheel e w v)

  -- Emptying any bucket and moving the index on.
  pub cleared-IsWheel :
      (w : Wheel A) (i : ℕ)
      → IsWheel w
      → IsWheel (record w {
        buckets = set w.buckets i [];
        curr_bucket_index = add_size w.curr_bucket_index 1 % w.num_buckets;
      })
  cleared-IsWheel w i v = record {
    some_buckets = v.some_buckets;
    allocated = length-set w.buckets _ _ ∙ v.allocated;
    index_in = mod-lt _ v.some_buckets;
  }

  turn-IsWheel : (w : Wheel A) → IsWheel w → IsWheel (turn w)
  unfolding turn
  turn-IsWheel w v = cleared-IsWheel w w.curr_bucket_index v

  -- Of one wheel or more, numbered from `k` below `2 ^ 64`, the loop chooses one that exists, for every
  -- number of ticks.
  pub find_wheel_bounds :
      (ws : List (Wheel A)) (k ticks : ℕ)
      → 0 < length ws
      → k + length ws < 2 ^ 64
      → (k ≤ (find_wheel ws k ticks).0) × ((find_wheel ws k ticks).0 < k + length ws)
  unfolding find_wheel
  find_wheel_bounds [] k ticks h small = absurd (omega arith)
  find_wheel_bounds (w ∷ []) k ticks h small = omega arith
  find_wheel_bounds (w ∷ v ∷ ws) k ticks h small =
      let step : add_size k 1 ≡ k + 1 = omega arith in
      let up =
        find_wheel_bounds (v ∷ ws) (k + 1)
          (sub_size ticks (mul_size w.num_buckets w.ticks_per_bucket)) (omega arith)
          (omega arith) in
      rw step (elim (Bool-cases (fits_in w ticks)) [
        | inl here ↦ rw here (omega arith)
        | inr above ↦ rw above (omega arith)
      ])

  pub load_once-IsWheel :
      (ws : List (Wheel A)) (n : ℕ)
      → 0 < n
      → n < length ws
      → All IsWheel ws
      → All IsWheel (load_once ws n) × (length (load_once ws n) ≡ length ws)
  unfolding load_once
  load_once-IsWheel ws n pos lt all =
      let below = get_or ws (n - 1) no_wheel in
      let wheel = get_or ws n no_wheel in
      let es = get_or wheel.buckets wheel.curr_bucket_index [] in
      (
        All-set IsWheel _ n (turn wheel)
            (turn-IsWheel wheel (All-get_or IsWheel ws n no_wheel lt all))
            (All-set IsWheel ws (n - 1) (load_entries es below)
              (load_entries-IsWheel es below
                (All-get_or IsWheel ws (n - 1) no_wheel (omega arith) all))
              all),
        length-set (set ws (n - 1) (load_entries es below)) n (turn wheel)
            ∙ length-set ws (n - 1) (load_entries es below),
      )

-- A property of the wheels that one load keeps is kept by the calls that go up the hierarchy.
module _ {ℓ κ} {A : Type ℓ} (P : List (Wheel A) → Type κ)
    (keep : (ws : List (Wheel A)) (n : ℕ)
      → 0 < n
      → n < length ws
      → All IsWheel ws
      → P ws
      → P (load_once ws n)) where
  abbrev Kept : List (Wheel A) → List (Wheel A) → Type κ
  Kept ws vs = All IsWheel vs × (length vs ≡ length ws) × P vs

  pub load_rule :
      (fuel : ℕ) (ws : List (Wheel A)) (n : ℕ)
      → All IsWheel ws
      → n ≤ length ws
      → length ws < 2 ^ 64
      → P ws
      → Kept ws (load_timers_from_wheel fuel ws n)
  unfolding load_timers_from_wheel
  load_rule zero ws n all h small p = (all, refl, p)
  load_rule (suc fuel) ws n all h small p = elim (Bool-cases ((n == length ws) || (n == 0))) [
    | inl done ↦ rw done (all, refl, p)
    | inr go ↦
        let pos : (0 < n) × (n < length ws) = ground arith in
        let once = load_once-IsWheel ws n pos.0 pos.1 all in
        let q = keep ws n pos.0 pos.1 all p in
        let step : add_size n 1 ≡ n + 1 = omega arith in
        rw (go, step)
          (elim (Bool-cases ((get_or (load_once ws n) n no_wheel).curr_bucket_index == 0)) [
            | inl wrapped ↦
                let up =
                  load_rule fuel (load_once ws n) (n + 1) once.0 (omega (arith, once.1, pos.1))
                    (omega (arith, once.1)) q in
                rw wrapped (up.0, up.1 ∙ once.1, up.2)
            | inr stays ↦ rw stays (once.0, once.1, q)
          ])
  ]
