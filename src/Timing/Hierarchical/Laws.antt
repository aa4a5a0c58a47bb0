-- ===== src/Timing/Hierarchical/Laws.antt =====
-- `schedule` and `advance` as a whole: what stays well formed, and where the timers are.
use async_ery.Base.{
  ℕ, ◌+◌, ◌-◌, ◌^◌, ◌<◌, ◌≡◌, refl, List, [], ◌∷◌, length, get_or, length-set, length-replicate,
  total-replicate, All, All-get_or, All-set, total, total-set, Bool-cases, inl, inr, arith,
  mul_size, ℤ, elapsed, is_shorter, quotient, size_cast,
}
use async_ery.Timing.Hierarchical.{
  HierarchicalTimingWheel, no_wheel, build, make, determine_timer_wheel, insert, schedule, advance,
  determine_new_bottom_wheel_index,
}
use async_ery.Timing.Hierarchical.Bounds.{IsWheel, IsValid, find_wheel_bounds, insert-IsWheel}
use async_ery.Timing.Hierarchical.Conserve.{
  weight, entries_weight, wheel_weight, insert-weight, expire_all-weight,
}

-- From sizes that are positive, and at least one, the constructor makes well-formed wheels, one for
-- each size, that hold no timer.
pub make_wheels_lem {ℓ} :
    {A : Type ℓ} (p : A → ℕ) (now tick_size : ℕ) (sizes : List ℕ)
    → 0 < length sizes
    → All (λ n. 0 < n) sizes
    → IsValid (make A now tick_size sizes).wheels
      × (length (make A now tick_size sizes).wheels ≡ length sizes)
      × (weight p (make A now tick_size sizes).wheels ≡ 0)
unfolding make
make_wheels_lem {A} p now tick_size sizes some_size positive =
    let wheels = built 1 sizes positive in
    (record { some_wheel = omega (arith, wheels.1); each = wheels.0 }, wheels.1, wheels.2)
  where
    built :
        (ticks : ℕ) (ns : List ℕ)
        → All (λ n. 0 < n) ns
        → All IsWheel (build A ticks ns)
          × (length (build A ticks ns) ≡ length ns)
          × (weight p (build A ticks ns) ≡ 0)
    built ticks [] all = (tt, refl, refl)
    built ticks (n ∷ ns) all =
        let rest = built (mul_size ticks n) ns all.1 in
        (
          (
            record { some_buckets = all.0; allocated = length-replicate n []; index_in = all.0 },
            rest.0,
          ),
          omega (arith, rest.1),
          omega (arith, rest.2, total-replicate (entries_weight p) n [] refl),
        )

module _ {ℓ} {A : Type ℓ} (p : A → ℕ) (h : HierarchicalTimingWheel A) (v : IsValid h.wheels)
    (small : length h.wheels < 2 ^ 64) where
  -- With fewer than `2 ^ 64` wheels, all well formed, `schedule` adds its timer and nothing else, for
  -- every duration, and keeps the wheels well formed.
  pub schedule_wheels_lem :
      (duration : ℤ) (timer : A)
      → IsValid (schedule h duration timer).wheels
        × (length (schedule h duration timer).wheels ≡ length h.wheels)
        × (weight p (schedule h duration timer).wheels ≡ weight p h.wheels + p timer)
  unfolding schedule determine_timer_wheel
  schedule_wheels_lem duration timer =
      let ticks = size_cast (quotient duration h.tick_size) in
      let (k, left) = determine_timer_wheel h ticks in
      let bounds = find_wheel_bounds h.wheels 0 ticks v.some_wheel (omega arith) in
      let in_range : k < length h.wheels = omega (arith, bounds) in
      let old = get_or h.wheels k no_wheel in
      let new = insert old left timer in
      let ok = All-get_or IsWheel h.wheels k no_wheel in_range v.each in
      let len = length-set h.wheels k new in
      (
        record {
          some_wheel = omega (arith, len, v.some_wheel);
          each = All-set IsWheel h.wheels k new (insert-IsWheel old left timer ok) v.each;
        },
        len,
        omega (
          arith,
          total-set (wheel_weight p) h.wheels k new no_wheel in_range,
          insert-weight p old left timer ok,
        ),
      )

  -- With fewer than `2 ^ 64` wheels, all well formed, `advance` returns timers or keeps them: none is
  -- lost and none comes twice, at any time `now`; the wheels stay well formed.
  pub advance_wheels_lem :
      (now : ℕ)
      → IsValid (advance h now).1.wheels
        × (length (advance h now).1.wheels ≡ length h.wheels)
        × (total p (advance h now).0 + weight p (advance h now).1.wheels ≡ weight p h.wheels)
  unfolding advance
  advance_wheels_lem now =
      elim (Bool-cases (is_shorter (elapsed now h.last_advancement_time) h.tick_size)) [
        | inl early ↦ rw early (v, refl, omega arith)
        | inr past ↦
            let index = (get_or h.wheels 0 no_wheel).curr_bucket_index in
            let rounds =
              determine_new_bottom_wheel_index h (elapsed now h.last_advancement_time) - index in
            let all = expire_all-weight p rounds index h.wheels [] v.some_wheel small v.each in
            rw past (
              record { some_wheel = omega (arith, all.1, v.some_wheel); each = all.0 },
              all.1,
              omega (arith, all.2),
            )
      ]
