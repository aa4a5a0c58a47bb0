-- ===== src/Timing/Wheel/Refine.antt =====
-- The timing wheel against the agenda.
use mathlib.Core.Path.{fun_ext}
use async_ery.Base.{
  ℕ, ◌+◌, ◌-◌, ◌/◌, ◌^◌, ◌≤◌, ◌<◌, ◌≡◌, refl, List, [], length, true, false, arith, pos, elapsed,
  is_shorter, size_cast, guard_passed, add_size,
}
use async_ery.Timing.Wheel.{TimingWheel, schedule, advance}
use async_ery.Timing.Wheel.Agenda.{Agenda, add, upto, later}
use async_ery.Timing.Wheel.Loop.{agenda, collect_lem, agenda-push_back}

pub record IsValid {ℓ} {A : Type ℓ} (w : TimingWheel A) : Type 0 where
  pub ticks_pos : 0 < w.num_ticks
  pub tick_size_pos : 0 < w.wheel_tick_size
  pub buckets : length w.wheel ≡ w.num_ticks

-- The timers that the wheel holds, by the ticks until they are due.
abbrev pub due {ℓ} : {A : Type ℓ} → TimingWheel A → Agenda A
due w = agenda w.num_ticks w.current_wheel_index w.wheel

module _ {ℓ} {A : Type ℓ} {w : TimingWheel A} (v : IsValid w) where
  -- In a well-formed wheel whose index stays below `2 ^ 64`, a timer scheduled for less than a turn of
  -- the wheel comes due after the whole ticks of its duration, behind those that were there; nothing
  -- else changes.
  pub due-schedule :
      (duration : ℕ) (timer : A)
      → duration / w.wheel_tick_size < w.num_ticks
      → w.current_wheel_index + w.num_ticks < 2 ^ 64
      → due (schedule w (pos duration) timer) ≡ add (due w) (duration / w.wheel_tick_size) timer
  unfolding schedule
  due-schedule duration timer fits small =
      let index : add_size w.current_wheel_index (size_cast (pos (duration / w.wheel_tick_size)))
          ≡ w.current_wheel_index + duration / w.wheel_tick_size =
        omega arith in
      rw index (
        fun_ext (
          agenda-push_back w.num_ticks v.ticks_pos w.current_wheel_index
            (duration / w.wheel_tick_size) w.wheel timer v.buckets fits))

  -- Before a tick has passed, or if the clock was set back, an advance does nothing.
  advance-early :
      (now : ℕ) → now < w.last_advancement_time + w.wheel_tick_size → advance w now ≡ ([], w)
  unfolding advance
  advance-early now h =
      let early : is_shorter (elapsed now w.last_advancement_time) w.wheel_tick_size ≡ true =
        ground arith in
      rw early

  abbrev pub ticks_until : ℕ → ℕ
  ticks_until now = (now - w.last_advancement_time) / w.wheel_tick_size

  -- After `ticks_until now` ticks, at the time `now`.
  pub record Advanced (now : ℕ) (result : List A × TimingWheel A) : Type ℓ where
    pub fired : result.0 ≡ upto (ticks_until now) (due w)
    pub left : due result.1 ≡ later (ticks_until now) (due w)
    pub time : result.1.last_advancement_time ≡ now
    pub valid : IsValid result.1

  -- Once a tick has passed, and while the index stays below `2 ^ 64`, `advance` returns exactly the
  -- timers that came due, in the order in which they did, and keeps the others, so many ticks nearer;
  -- it notes the time, and the wheel stays well formed.
  pub advance_lem :
      (now : ℕ)
      → w.last_advancement_time + w.wheel_tick_size ≤ now
      → w.current_wheel_index + ticks_until now < 2 ^ 64
      → Advanced now (advance w now)
  unfolding advance
  advance_lem now h small =
      let past : is_shorter (elapsed now w.last_advancement_time) w.wheel_tick_size ≡ false =
        ground arith in
      let span = (guard_passed now w.last_advancement_time w.wheel_tick_size past).1 in
      let index : add_size w.current_wheel_index (size_cast (pos (ticks_until now)))
          ≡ w.current_wheel_index + ticks_until now =
        omega arith in
      let rounds : w.current_wheel_index + ticks_until now - w.current_wheel_index
          ≡ ticks_until now =
        omega arith in
      let loop =
        collect_lem w.num_ticks v.ticks_pos (ticks_until now) w.current_wheel_index w.wheel []
          v.buckets small in
      rw (past, span, index, rounds)
        (record {
          fired = loop.0;
          left = fun_ext loop.2;
          time = refl;
          valid = record {
            ticks_pos = v.ticks_pos;
            tick_size_pos = v.tick_size_pos;
            buckets = loop.1;
          };
        })
