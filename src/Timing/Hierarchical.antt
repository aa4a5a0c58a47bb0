-- ===== src/Timing/Hierarchical.antt =====
-- src/timing/include/timing/structures/timing_wheel_hierarchical.h. Time points are counts of the
-- clock's unit; reading the clock is an argument of each call that does it.
pub mod Bounds
pub mod Conserve
pub mod Laws
pub mod Underflow
mod Tests
use async_ery.Base.{
  ℕ, zero, suc, ◌-◌, ◌/◌, ◌%◌, Bool, ◌||◌, List, [], ◌∷◌, ◌++◌, map, length, get_or, set, replicate,
  ltb, ◌==◌, if◌then◌else◌, add_size, sub_size, mul_size, ℤ, elapsed, is_shorter, quotient,
  size_cast,
}
use async_ery.Timing.Wheel.{push_back}

pub record TimerEntry {ℓ} (A : Type ℓ) : Type ℓ where
  pub tick_offset_into_bucket : ℕ
  pub timer : A

pub record Wheel {ℓ} (A : Type ℓ) : Type ℓ where
  pub num_buckets : ℕ
  pub ticks_per_bucket : ℕ
  pub curr_bucket_index : ℕ
  pub buckets : List (List (TimerEntry A))

pub record HierarchicalTimingWheel {ℓ} (A : Type ℓ) : Type ℓ where
  pub tick_size : ℕ
  pub last_advancement_time : ℕ
  pub wheels : List (Wheel A)

-- What an index out of range reads.
abbrev pub no_wheel {ℓ} : {A : Type ℓ} → Wheel A
no_wheel = record { num_buckets = 0; ticks_per_bucket = 0; curr_bucket_index = 0; buckets = [] }

-- The loop of the constructor.
pub build {ℓ} : (A : Type ℓ) → ℕ → List ℕ → List (Wheel A)
build A total_ticks_in_last_wheel [] = []
build A total_ticks_in_last_wheel (wheel_size ∷ wheel_sizes) =
    record {
      num_buckets = wheel_size;
      ticks_per_bucket = total_ticks_in_last_wheel;
      curr_bucket_index = 0;
      buckets = replicate wheel_size [];
    }
    ∷ build A (mul_size total_ticks_in_last_wheel wheel_size) wheel_sizes

-- The constructor, at the time `now`.
pub make {ℓ} : (A : Type ℓ) → ℕ → ℕ → List ℕ → HierarchicalTimingWheel A
unfolding build
make A now tick_size wheel_sizes = record {
  tick_size = tick_size;
  last_advancement_time = now;
  wheels = build A 1 wheel_sizes;
}

module _ {ℓ} {A : Type ℓ} where
  -- The second test of `can_fit_in_wheel`.
  abbrev pub fits_in : Wheel A → ℕ → Bool
  fits_in w ticks_to_fit =
      ltb (add_size w.curr_bucket_index (ticks_to_fit / w.ticks_per_bucket)) w.num_buckets

  -- The loop of `determine_timer_wheel` from `curr_wheel` on; the last wheel takes everything.
  pub find_wheel : List (Wheel A) → ℕ → ℕ → ℕ × ℕ
  find_wheel [] curr_wheel ticks_to_fit = (curr_wheel, ticks_to_fit)
  find_wheel (w ∷ []) curr_wheel ticks_to_fit = (curr_wheel, ticks_to_fit)
  find_wheel (w ∷ v ∷ ws) curr_wheel ticks_to_fit =
      let up =
        find_wheel (v ∷ ws) (add_size curr_wheel 1)
          (sub_size ticks_to_fit (mul_size w.num_buckets w.ticks_per_bucket)) in
      if fits_in w ticks_to_fit then (curr_wheel, ticks_to_fit) else up

  pub determine_timer_wheel : HierarchicalTimingWheel A → ℕ → ℕ × ℕ
  unfolding find_wheel
  determine_timer_wheel h ticks_since_last_advancement =
      find_wheel h.wheels 0 ticks_since_last_advancement

  -- The end of `schedule`, on the wheel that was chosen.
  pub insert : Wheel A → ℕ → A → Wheel A
  insert w ticks_left timer = record w {
    buckets =
        push_back w.buckets
          (add_size w.curr_bucket_index (ticks_left / w.ticks_per_bucket) % w.num_buckets)
          (record { tick_offset_into_bucket = ticks_left % w.ticks_per_bucket; timer = timer });
  }

  pub schedule : HierarchicalTimingWheel A → ℤ → A → HierarchicalTimingWheel A
  unfolding determine_timer_wheel insert
  schedule h duration_from_last_advancement timer =
      let ticks_to_fit = size_cast (quotient duration_from_last_advancement h.tick_size) in
      let (wheel_to_place_in, ticks_left) = determine_timer_wheel h ticks_to_fit in
      record h {
        wheels =
            set h.wheels wheel_to_place_in
              (insert (get_or h.wheels wheel_to_place_in no_wheel) ticks_left timer);
      }

  -- One round of the loop of `load_timers_from_wheel`.
  pub load_entry : TimerEntry A → Wheel A → Wheel A
  load_entry entry below =
      let bucket_index =
        add_size below.curr_bucket_index (entry.tick_offset_into_bucket / below.ticks_per_bucket)
        % below.num_buckets in
      let new_tick_offset_into_bucket =
        sub_size entry.tick_offset_into_bucket (mul_size bucket_index below.ticks_per_bucket) in
      record below {
        buckets =
            push_back below.buckets bucket_index (record {
              tick_offset_into_bucket = new_tick_offset_into_bucket;
              timer = entry.timer;
            });
      }

  -- The loop, over the entries of the bucket that is loaded.
  pub load_entries : List (TimerEntry A) → Wheel A → Wheel A
  unfolding load_entry
  load_entries [] below = below
  load_entries (entry ∷ entries) below = load_entries entries (load_entry entry below)

  -- What is left of a wheel whose current bucket was loaded.
  pub turn : Wheel A → Wheel A
  turn w = record w {
    buckets = set w.buckets w.curr_bucket_index [];
    curr_bucket_index = add_size w.curr_bucket_index 1 % w.num_buckets;
  }

  -- The body of `load_timers_from_wheel` behind its guard, but for the last line.
  pub load_once : List (Wheel A) → ℕ → List (Wheel A)
  unfolding load_entries turn
  load_once wheels wheel_num =
      let wheel = get_or wheels wheel_num no_wheel in
      let below = get_or wheels (wheel_num - 1) no_wheel in
      let entries = get_or wheel.buckets wheel.curr_bucket_index [] in
      set (set wheels (wheel_num - 1) (load_entries entries below)) wheel_num (turn wheel)

  -- The fuel bounds the calls: each goes one wheel up, so the number of wheels is enough.
  pub load_timers_from_wheel : ℕ → List (Wheel A) → ℕ → List (Wheel A)
  unfolding load_once
  load_timers_from_wheel zero wheels wheel_num = wheels
  load_timers_from_wheel (suc fuel) wheels wheel_num =
      let loaded = load_once wheels wheel_num in
      let up = load_timers_from_wheel fuel loaded (add_size wheel_num 1) in
      if (wheel_num == length wheels) || (wheel_num == 0)
      then wheels
      else (if (get_or loaded wheel_num no_wheel).curr_bucket_index == 0 then up else loaded)

  -- The lowest wheel after its bucket was read: emptied, and the index moved on.
  pub clear_lowest : Wheel A → ℕ → Wheel A
  clear_lowest lowest bucket = record lowest {
    buckets = set lowest.buckets bucket [];
    curr_bucket_index = add_size lowest.curr_bucket_index 1 % lowest.num_buckets;
  }

  -- One round of the loop of `advance`; `idx` is not reduced to a bucket yet.
  pub expire : List (Wheel A) → ℕ → List A × List (Wheel A)
  unfolding load_timers_from_wheel clear_lowest
  expire wheels idx =
      let lowest = get_or wheels 0 no_wheel in
      let bucket = idx % lowest.num_buckets in
      let cleared = clear_lowest lowest bucket in
      let wheels' = set wheels 0 cleared in
      (
        map (λ e. e.timer) (get_or lowest.buckets bucket []),
        if cleared.curr_bucket_index == 0
            then load_timers_from_wheel (length wheels') wheels' 1
            else wheels',
      )

  -- The loop of `advance` over `n` indices from `idx` on.
  pub expire_all : ℕ → ℕ → List (Wheel A) → List A → List A × List (Wheel A)
  unfolding expire
  expire_all zero idx wheels resolved_timers = (resolved_timers, wheels)
  expire_all (suc n) idx wheels resolved_timers =
      let (timers, wheels') = expire wheels idx in
      expire_all n (add_size idx 1) wheels' (resolved_timers ++ timers)

  -- `since_last` is the argument `now` less `last_advancement_time`.
  pub determine_new_bottom_wheel_index : HierarchicalTimingWheel A → ℤ → ℕ
  determine_new_bottom_wheel_index h since_last =
      add_size (get_or h.wheels 0 no_wheel).curr_bucket_index
        (size_cast (quotient since_last h.tick_size))

  pub advance : HierarchicalTimingWheel A → ℕ → List A × HierarchicalTimingWheel A
  unfolding expire_all determine_new_bottom_wheel_index
  advance h now =
      let since_last = elapsed now h.last_advancement_time in
      let lowest_wheel_bucket_index = (get_or h.wheels 0 no_wheel).curr_bucket_index in
      let rounds = determine_new_bottom_wheel_index h since_last - lowest_wheel_bucket_index in
      let (resolved_timers, wheels') = expire_all rounds lowest_wheel_bucket_index h.wheels [] in
      if is_shorter since_last h.tick_size
      then ([], h)
      else (resolved_timers, record h { wheels = wheels'; last_advancement_time = now })
