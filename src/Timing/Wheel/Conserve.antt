-- ===== src/Timing/Wheel/Conserve.antt =====
-- The timers of the timing wheel, each weighed by `p`, at any duration and time.
use native.Mathlib.Nat.{mod-lt}
use async_ery.Base.{
  ℕ, zero, suc, ◌+◌, ◌-◌, ◌%◌, ◌<◌, ◌≡◌, refl, ◌∙◌, inl, inr, List, [], ◌∷◌, ◌++◌, length, get_or,
  set, length-set, length-replicate, total, total-append, total-set, total-replicate, Bool-cases,
  add_size, ℤ, elapsed, is_shorter, arith,
}
use async_ery.Timing.Wheel.{TimingWheel, make, non_wrapped_wheel_index, schedule, collect, advance}
use async_ery.Timing.Wheel.Refine.{IsValid}

-- A new wheel is well formed.
pub make-IsValid {ℓ} :
    {A : Type ℓ} (now tick_size num_ticks : ℕ)
    → 0 < tick_size
    → 0 < num_ticks
    → IsValid (make A now tick_size num_ticks)
unfolding make
make-IsValid now tick_size num_ticks ht hn = record {
  ticks_pos = hn;
  tick_size_pos = ht;
  buckets = length-replicate num_ticks [];
}

module _ {ℓ} {A : Type ℓ} (p : A → ℕ) where
  -- The timers that a wheel holds, each weighed by `p`.
  abbrev pub weight : TimingWheel A → ℕ
  weight w = total (total p) w.wheel

  pub make-weight : (now tick_size num_ticks : ℕ) → weight (make A now tick_size num_ticks) ≡ 0
  unfolding make
  make-weight now tick_size num_ticks = total-replicate (total p) num_ticks [] refl

  -- In a well-formed wheel `schedule` adds its timer once and nothing else, for every duration, and
  -- keeps the wheel well formed.
  pub schedule-weight :
      (w : TimingWheel A) (duration : ℤ) (timer : A)
      → IsValid w
      → IsValid (schedule w duration timer)
        × (weight (schedule w duration timer) ≡ weight w + p timer)
  unfolding schedule
  schedule-weight w duration timer v =
      let b = non_wrapped_wheel_index w duration % w.num_ticks in
      let bucket = get_or w.wheel b [] in
      let in_range : b < length w.wheel =
        omega (arith, v.buckets, mod-lt (non_wrapped_wheel_index w duration) v.ticks_pos) in
      (
        record {
          ticks_pos = v.ticks_pos;
          tick_size_pos = v.tick_size_pos;
          buckets = length-set w.wheel b (bucket ++ timer ∷ []) ∙ v.buckets;
        },
        omega (
          arith,
          total-set (total p) w.wheel b (bucket ++ timer ∷ []) [] in_range,
          total-append p bucket (timer ∷ []),
        ),
      )

  collect-weight :
      (n k idx : ℕ) (ws : List (List A)) (out : List A)
      → 0 < n
      → length ws ≡ n
      → (length (collect n k idx ws out).1 ≡ n)
        × (total p (collect n k idx ws out).0 + total (total p) (collect n k idx ws out).1
            ≡ total p out + total (total p) ws)
  unfolding collect
  collect-weight n zero idx ws out pos len = (len, refl)
  collect-weight n (suc k) idx ws out pos len =
      let b = idx % n in
      let bucket = get_or ws b [] in
      let rest =
        collect-weight n k (add_size idx 1) (set ws b []) (out ++ bucket) pos
          (length-set ws b [] ∙ len) in
      (
        rest.0,
        omega (
          arith,
          rest.1,
          total-append p out bucket,
          total-set (total p) ws b [] [] (omega (arith, len, mod-lt idx pos)),
        ),
      )

  -- In a well-formed wheel `advance` returns timers or keeps them, none lost and none twice, at any
  -- time `now`, and the wheel stays well formed.
  pub advance-weight :
      (w : TimingWheel A) (now : ℕ)
      → IsValid w
      → IsValid (advance w now).1
        × (total p (advance w now).0 + weight (advance w now).1 ≡ weight w)
  unfolding advance
  advance-weight w now v =
      let since_last = elapsed now w.last_advancement_time in
      let upto = non_wrapped_wheel_index w since_last in
      elim (Bool-cases (is_shorter since_last w.wheel_tick_size)) [
        | inl early ↦ rw early (v, omega arith)
        | inr past ↦
            let all =
              collect-weight w.num_ticks (upto - w.current_wheel_index) w.current_wheel_index
                w.wheel [] v.ticks_pos v.buckets in
            rw past (
              record { ticks_pos = v.ticks_pos; tick_size_pos = v.tick_size_pos; buckets = all.0 },
              omega (arith, all.1),
            )
      ]
