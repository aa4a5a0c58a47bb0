-- ===== src/Timing/Wheel/Loop.antt =====
-- The loop of `advance` and the bucket of `schedule`, seen as an agenda.
use native.Mathlib.Nat.{add-mod_right}
use mathlib.Core.Path.{fun_ext}
use async_ery.Base.{
  ℕ, zero, suc, ◌+◌, ◌%◌, ◌^◌, ◌≤◌, ◌<◌, ◌≡◌, sym, ap, ◌∙◌, inl, inr, List, [], ◌++◌, append_assoc,
  append-nil, length, get_or, set, length-set, get_or-set_self, get_or-set_ne, ltb, if◌then◌else◌,
  Bool-cases, true, false, arith, dec_lt, add_size, step_ne, slot_ne, ℕ_discrete, same_number,
  differ, ◌==◌,
}
use async_ery.Timing.Wheel.{collect, push_back}
use async_ery.Timing.Wheel.Agenda.{Agenda, add, upto, later}

-- The buckets from index `e` on, once round the wheel.
abbrev pub agenda {ℓ} : {A : Type ℓ} → ℕ → ℕ → List (List A) → Agenda A
agenda num_ticks e wheel i = if ltb i num_ticks then get_or wheel ((e + i) % num_ticks) [] else []

module _ {ℓ} {A : Type ℓ} (n : ℕ) (pos : 0 < n) where
  agenda-now : (e : ℕ) (ws : List (List A)) → agenda n e ws 0 ≡ get_or ws (e % n) []
  agenda-now e ws =
      let a : ltb 0 n ≡ true = ground arith in let z : e + 0 ≡ e = omega arith in rw (a, z)

  beyond :
      (e : ℕ) (ws : List (List A))
      → length ws ≡ n
      → (i : ℕ) → n ≤ i + 1
      → (if ltb i n then get_or (set ws (e % n) []) ((e + (i + 1)) % n) [] else []) ≡ []
  beyond e ws len i h = elim (Bool-cases (ltb i n)) [
    | inl last ↦
        let z : e + (i + 1) ≡ e + n = ground arith in
        rw (last, z, add-mod_right e n) (get_or-set_self ws (e % n) [] [] (omega (arith, len)))
    | inr over ↦ rw over
  ]

  -- Emptying the bucket at `e` and stepping on shifts the agenda by a tick.
  agenda-shift :
      (e : ℕ) (ws : List (List A))
      → length ws ≡ n
      → (i : ℕ) → agenda n (e + 1) (set ws (e % n) []) i ≡ agenda n e ws (i + 1)
  agenda-shift e ws len i =
      let next : e + 1 + i ≡ e + (i + 1) = omega arith in
      rw next (elim (dec_lt (i + 1) n) [
        | yes inside ↦
            let a : ltb i n ≡ true = ground arith in
            let b : ltb (i + 1) n ≡ true = ground arith in
            rw (a, b)
              (get_or-set_ne ws (e % n) ((e + (i + 1)) % n) [] []
                (step_ne n e (i + 1) (omega arith) inside))
        | no outside ↦
            let b : ltb (i + 1) n ≡ false = ground arith in rw b (beyond e ws len i (omega arith))
      ])

  -- The loop appends what the agenda holds for the `k` ticks, and leaves the agenda `k` ticks later.
  pub collect_lem :
      (k e : ℕ) (ws : List (List A)) (out : List A)
      → length ws ≡ n
      → e + k < 2 ^ 64
      → let (out', ws') = collect n k e ws out in
        (out' ≡ out ++ upto k (agenda n e ws))
        × (length ws' ≡ n)
        × ((i : ℕ) → agenda n (e + k) ws' i ≡ later k (agenda n e ws) i)
  unfolding collect upto later
  collect_lem zero e ws out len small =
      let z : e + 0 ≡ e = omega arith in
      (sym (append-nil out), len, λ i. let y : i + 0 ≡ i = omega arith in rw (z, y))
  collect_lem (suc k) e ws out len small =
      let w : add_size e 1 ≡ e + 1 = omega arith in
      let z : e + suc k ≡ e + 1 + k = omega arith in
      let rest =
        collect_lem k (e + 1) (set ws (e % n) []) (out ++ get_or ws (e % n) [])
          (length-set ws (e % n) [] ∙ len) (omega arith) in
      let now = agenda-now e ws in
      rw (w, collect)
        (
          rest.0
              ∙ ap (λ due. (out ++ get_or ws (e % n) []) ++ upto k due)
                  (fun_ext (agenda-shift e ws len))
              ∙ append_assoc out (get_or ws (e % n) []) (upto k (λ i. agenda n e ws (i + 1)))
              ∙ ap (λ due. out ++ (due ++ upto k (λ i. agenda n e ws (i + 1)))) (sym now),
          rest.1,
          λ i. rw z (rest.2 i ∙ agenda-shift e ws len (i + k) ∙ ap (agenda n e ws) (omega arith)),
        )

  -- A timer that goes into the bucket `ticks` ahead comes due in that many ticks.
  pub agenda-push_back :
      (e ticks : ℕ) (ws : List (List A)) (timer : A)
      → length ws ≡ n
      → ticks < n
      → (i : ℕ)
      → agenda n e (push_back ws ((e + ticks) % n) timer) i ≡ add (agenda n e ws) ticks timer i
  unfolding add
  agenda-push_back e ticks ws timer len fits i = elim (dec_lt i n) [
    | no outside ↦
        let a : ltb i n ≡ false = ground arith in
        let b : (i == ticks) ≡ false = ground arith in rw (a, b)
    | yes inside ↦
        let a : ltb i n ≡ true = ground arith in
        rw a (elim (ℕ_discrete i ticks) [
          | yes same ↦
              rw (same, same_number ticks)
                (get_or-set_self ws ((e + ticks) % n) _ [] (omega (arith, len)))
          | no other ↦ rw (differ other) (
              get_or-set_ne ws ((e + ticks) % n) ((e + i) % n) _ []
                (slot_ne n e ticks i fits inside λ s. other (sym s)))
        ])
  ]
