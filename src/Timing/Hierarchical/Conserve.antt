-- ===== src/Timing/Hierarchical/Conserve.antt =====
-- The timers of the wheels, each weighed by `p`, in the steps of `advance` and `schedule`.
use native.Mathlib.Nat.{mod-lt}
use async_ery.Base.{
  ℕ, zero, suc, ◌+◌, ◌-◌, ◌/◌, ◌%◌, ◌^◌, ◌<◌, ◌≡◌, refl, ap, ◌∙◌, List, [], ◌∷◌, ◌++◌, map, length,
  get_or, set, length-set, get_or-set_ne, All, All-get_or, All-set, total, total-append, total-set,
  total-map, ◌==◌, Bool-cases, inl, inr, arith, add_size,
}
use async_ery.Timing.Wheel.{push_back}
use async_ery.Timing.Hierarchical.{
  TimerEntry, Wheel, no_wheel, insert, load_entry, load_entries, turn, load_once,
  load_timers_from_wheel, clear_lowest, expire, expire_all,
}
use async_ery.Timing.Hierarchical.Bounds.{IsWheel, load_rule, load_entry-IsWheel, cleared-IsWheel}

-- `p` weighs each timer: with 1 for some timers and 0 for the others it counts those.
module _ {ℓ} {A : Type ℓ} (p : A → ℕ) where
  abbrev pub entries_weight : List (TimerEntry A) → ℕ
  entries_weight = total (λ e. p e.timer)

  abbrev pub wheel_weight : Wheel A → ℕ
  wheel_weight w = total entries_weight w.buckets

  -- The timers that a hierarchy of wheels holds.
  abbrev pub weight : List (Wheel A) → ℕ
  weight = total wheel_weight

  push_back-weight :
      (bs : List (List (TimerEntry A))) (i : ℕ) (e : TimerEntry A)
      → i < length bs
      → total entries_weight (push_back bs i e) ≡ total entries_weight bs + p e.timer
  push_back-weight bs i e h = omega (
    arith,
    total-set entries_weight bs i (get_or bs i [] ++ e ∷ []) [] h,
    total-append (λ (e : TimerEntry A). p e.timer) (get_or bs i []) (e ∷ []),
  )

  pub insert-weight :
      (w : Wheel A) (ticks : ℕ) (t : A)
      → IsWheel w
      → wheel_weight (insert w ticks t) ≡ wheel_weight w + p t
  unfolding insert
  insert-weight w ticks t v = push_back-weight w.buckets _ _ (
      omega (
        arith,
        v.allocated,
        mod-lt (add_size w.curr_bucket_index (ticks / w.ticks_per_bucket)) v.some_buckets,
      ))

  load_entry-weight :
      (e : TimerEntry A) (w : Wheel A)
      → IsWheel w
      → wheel_weight (load_entry e w) ≡ wheel_weight w + p e.timer
  unfolding load_entry
  load_entry-weight e w v = push_back-weight w.buckets _ _ (
      omega (
        arith,
        v.allocated,
        mod-lt (add_size w.curr_bucket_index (e.tick_offset_into_bucket / w.ticks_per_bucket))
            v.some_buckets,
      ))

  load_entries-weight :
      (es : List (TimerEntry A)) (w : Wheel A)
      → IsWheel w
      → wheel_weight (load_entries es w) ≡ wheel_weight w + entries_weight es
  unfolding load_entries
  load_entries-weight [] w v = omega arith
  load_entries-weight (e ∷ es) w v = omega (
    arith,
    load_entries-weight es (load_entry e w) (load_entry-IsWheel e w v),
    load_entry-weight e w v,
  )

  clear-weight :
      (w : Wheel A) (i : ℕ)
      → i < length w.buckets
      → total entries_weight (set w.buckets i []) + entries_weight (get_or w.buckets i [])
        ≡ wheel_weight w
  clear-weight w i h = omega (arith, total-set entries_weight w.buckets i [] [] h)

  turn-weight :
      (w : Wheel A)
      → IsWheel w
      → wheel_weight (turn w) + entries_weight (get_or w.buckets w.curr_bucket_index [])
        ≡ wheel_weight w
  unfolding turn
  turn-weight w v = clear-weight w w.curr_bucket_index (omega (arith, v.allocated, v.index_in))

  -- A load moves the timers of one bucket down, and keeps all of them.
  load_once-weight :
      (ws : List (Wheel A)) (n : ℕ)
      → 0 < n
      → n < length ws
      → All IsWheel ws
      → weight (load_once ws n) ≡ weight ws
  unfolding load_once
  load_once-weight ws n pos lt all =
      let wheel = get_or ws n no_wheel in
      let below = get_or ws (n - 1) no_wheel in
      let es = get_or wheel.buckets wheel.curr_bucket_index [] in
      let mid = set ws (n - 1) (load_entries es below) in
      let same : get_or mid n no_wheel ≡ wheel =
        get_or-set_ne ws (n - 1) n (load_entries es below) no_wheel (omega arith) in
      omega (
        arith,
        total-set wheel_weight ws (n - 1) (load_entries es below) no_wheel (omega arith),
        total-set wheel_weight mid n (turn wheel) no_wheel
            (omega (arith, length-set ws (n - 1) (load_entries es below))),
        ap wheel_weight same,
        load_entries-weight es below (All-get_or IsWheel ws (n - 1) no_wheel (omega arith) all),
        turn-weight wheel (All-get_or IsWheel ws n no_wheel lt all),
      )

  timers_weight : (es : List (TimerEntry A)) → total p (map (λ e. e.timer) es) ≡ entries_weight es
  timers_weight es = total-map p (λ (e : TimerEntry A). e.timer) es

  load-weight :
      (ws : List (Wheel A)) (c : ℕ)
      → length ws < 2 ^ 64
      → 0 < length ws
      → All IsWheel ws
      → weight ws ≡ c
      → All IsWheel (load_timers_from_wheel (length ws) ws 1)
        × (length (load_timers_from_wheel (length ws) ws 1) ≡ length ws)
        × (weight (load_timers_from_wheel (length ws) ws 1) ≡ c)
  load-weight ws c small pos all e =
      load_rule (λ vs. weight vs ≡ c) (λ vs n q lt ok same. load_once-weight vs n q lt ok ∙ same)
        (length ws) ws 1 all (omega arith) small e

  -- The wheels after the lowest one was read.
  clear_lowest-weight :
      (ws : List (Wheel A)) (idx : ℕ)
      → 0 < length ws
      → All IsWheel ws
      → let lowest = get_or ws 0 no_wheel in
        let b = idx % lowest.num_buckets in
        All IsWheel (set ws 0 (clear_lowest lowest b))
        × (entries_weight (get_or lowest.buckets b []) + weight (set ws 0 (clear_lowest lowest b))
            ≡ weight ws)
  unfolding clear_lowest
  clear_lowest-weight ws idx pos all =
      let lowest = get_or ws 0 no_wheel in
      let b = idx % lowest.num_buckets in
      let ok = All-get_or IsWheel ws 0 no_wheel pos all in
      (
        All-set IsWheel ws 0 (clear_lowest lowest b) (cleared-IsWheel lowest b ok) all,
        omega (
          arith,
          total-set wheel_weight ws 0 (clear_lowest lowest b) no_wheel pos,
          clear-weight lowest b (omega (arith, ok.allocated, mod-lt idx ok.some_buckets)),
        ),
      )

  -- A round of `advance` returns timers or keeps them, and the wheels stay well formed.
  expire-weight :
      (ws : List (Wheel A)) (idx : ℕ)
      → 0 < length ws
      → length ws < 2 ^ 64
      → All IsWheel ws
      → All IsWheel (expire ws idx).1
        × (length (expire ws idx).1 ≡ length ws)
        × (total p (expire ws idx).0 + weight (expire ws idx).1 ≡ weight ws)
  unfolding expire
  expire-weight ws idx pos small all =
      let lowest = get_or ws 0 no_wheel in
      let b = idx % lowest.num_buckets in
      let cleared = clear_lowest lowest b in
      let ws' = set ws 0 cleared in
      let len = length-set ws 0 cleared in
      let first = clear_lowest-weight ws idx pos all in
      let timers = timers_weight (get_or lowest.buckets b []) in
      elim (Bool-cases (cleared.curr_bucket_index == 0)) [
        | inl wrapped ↦
            let up =
              load-weight ws' (weight ws') (omega (arith, len)) (omega (arith, len)) first.0 refl in
            rw wrapped (up.0, up.1 ∙ len, omega (arith, up.2, first.1, timers))
        | inr stays ↦ rw stays (first.0, len, omega (arith, first.1, timers))
      ]

  pub expire_all-weight :
      (n idx : ℕ) (ws : List (Wheel A)) (out : List A)
      → 0 < length ws
      → length ws < 2 ^ 64
      → All IsWheel ws
      → All IsWheel (expire_all n idx ws out).1
        × (length (expire_all n idx ws out).1 ≡ length ws)
        × (total p (expire_all n idx ws out).0 + weight (expire_all n idx ws out).1
            ≡ total p out + weight ws)
  unfolding expire_all
  expire_all-weight zero idx ws out pos small all = (all, refl, refl)
  expire_all-weight (suc n) idx ws out pos small all =
      let one = expire-weight ws idx pos small all in
      let rest =
        expire_all-weight n (add_size idx 1) (expire ws idx).1 (out ++ (expire ws idx).0)
          (omega (arith, one.1)) (omega (arith, one.1)) one.0 in
      (rest.0, rest.1 ∙ one.1, omega (arith, rest.2, one.2, total-append p out (expire ws idx).0))
