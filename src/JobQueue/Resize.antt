-- ===== src/JobQueue/Resize.antt =====
-- The loop of `resize`, and where the jobs stand in the larger ring.
use async_ery.Base.{
  ℕ, zero, suc, ◌+◌, ◌*◌, ◌%◌, ◌^◌, ◌≤◌, ◌<◌, ◌≡◌, refl, ◌∙◌, ◌≢◌, inl, inr, List, length, get_or,
  set, length-set, get_or-set_self, get_or-set_ne, ◌==◌, Bool-cases, differ, equal, unequal,
  same_number, true, false, add_size, mod_below, arith,
}
use native.Mathlib.Decide.{dec_lt}
use async_ery.JobQueue.{move_slot, reposition}
use async_ery.Base.{entry_slot}

module _ {ℓ} {A : Type ℓ} (blank : A) (moved : A → A) where
  length-move_slot :
      (xs : List A) (to from : ℕ) → length (move_slot blank moved xs to from) ≡ length xs
  length-move_slot xs to from =
      length-set (set xs to (get_or xs from blank)) from _ ∙ length-set xs to _

  get_or-move_slot_ne :
      (xs : List A) (to from j : ℕ)
      → to ≢ j
      → from ≢ j
      → get_or (move_slot blank moved xs to from) j blank ≡ get_or xs j blank
  get_or-move_slot_ne xs to from j p q =
      get_or-set_ne (set xs to (get_or xs from blank)) from j _ blank q
      ∙ get_or-set_ne xs to j _ blank p

  get_or-move_slot_self :
      (xs : List A) (to from : ℕ)
      → from ≢ to
      → to < length xs
      → get_or (move_slot blank moved xs to from) to blank ≡ get_or xs from blank
  get_or-move_slot_self xs to from p h =
      get_or-set_ne (set xs to (get_or xs from blank)) from to _ blank p
      ∙ get_or-set_self xs to _ blank h

-- `c` slots hold `n` jobs from slot `h` on; `job i` is the one at entry `h + i`.
module _ {ℓ} {A : Type ℓ} (blank : A) (moved : A → A) (c h n : ℕ) (hh : h < c) (hn : n < c)
    (job : ℕ → A) where
  -- The state of the loop after `k` rounds.
  pub record Placed (k : ℕ) (ys : List A) : Type ℓ where
    pub room : length ys ≡ c * 2
    pub done : (i : ℕ) → i < k → get_or ys ((h + i) % (c * 2)) blank ≡ job i
    pub todo : (i : ℕ) → k ≤ i → i < n → get_or ys ((h + i) % c) blank ≡ job i

  new_slot : (i : ℕ) → i < c → (h + i) % (c * 2) ≡ h + i
  new_slot i lt = mod_below (h + i) (c * 2) (omega arith)

  module _ (k : ℕ) (ys : List A) (p : Placed k ys) (lt : k < n) where
    Placed-stay : (h + k) % c ≡ (h + k) % (c * 2) → Placed (k + 1) ys
    Placed-stay same = record {
      room = p.room;
      done = λ i below. elim (dec_lt i k) [
        | yes old ↦ p.done i old
        | no new ↦ let e : i ≡ k = omega arith in rw (e, ← same) (p.todo k (omega arith) lt)
      ];
      todo = λ i above below. p.todo i (omega arith) below;
    }

    abbrev moved_on : List A
    moved_on = move_slot blank moved ys ((h + k) % (c * 2)) ((h + k) % c)

    new_ne_old :
        (i : ℕ)
        → i < k
        → (h + k) % c ≢ (h + k) % (c * 2)
        → ((h + k) % (c * 2) ≢ (h + i) % (c * 2)) × ((h + k) % c ≢ (h + i) % (c * 2))
    new_ne_old i below moves = ground (arith, new_slot i, new_slot k, entry_slot c h k hh)

    old_ne_old :
        (i : ℕ)
        → k < i
        → i < n
        → (h + k) % c ≢ (h + k) % (c * 2)
        → ((h + k) % (c * 2) ≢ (h + i) % c) × ((h + k) % c ≢ (h + i) % c)
    old_ne_old i above below moves =
        ground (arith, new_slot k, entry_slot c h k hh, entry_slot c h i hh)

    Placed-move : (h + k) % c ≢ (h + k) % (c * 2) → Placed (k + 1) moved_on
    Placed-move moves = record {
      room = length-move_slot blank moved ys _ _ ∙ p.room;
      done = λ i below. elim (dec_lt i k) [
        | yes old ↦
            get_or-move_slot_ne blank moved ys _ _ _ (new_ne_old i old moves).0
              (new_ne_old i old moves).1
            ∙ p.done i old
        | no new ↦
            let e : i ≡ k = omega arith in
            rw e (
              get_or-move_slot_self blank moved ys _ _ moves (omega (arith, new_slot k, p.room))
              ∙ p.todo k (omega arith) lt)
      ];
      todo = λ i above below.
          get_or-move_slot_ne blank moved ys _ _ _ (old_ne_old i (omega arith) below moves).0
            (old_ne_old i (omega arith) below moves).1
          ∙ p.todo i (omega arith) below;
    }

  -- With more fuel than jobs the loop ends at `tail`, every job in its new slot.
  pub reposition_lem :
      c < 2 ^ 63
      → (t : ℕ) → (h + n) % c ≡ t
      → ((i : ℕ) → i < n → (h + i) % c ≢ t)
      → (fuel k : ℕ) (ys : List A) → Placed k ys
      → k ≤ n
      → n < k + fuel
      → let (zs, new_tail) = reposition blank moved fuel c (c * 2) t ys (h + k) (h + k) in
        Placed n zs × (new_tail ≡ h + n)
  unfolding reposition
  reposition_lem small t ends within zero k ys p le enough = absurd (omega arith)
  reposition_lem small t ends within (suc fuel) k ys p le enough = elim (dec_lt k n) [
    | yes more ↦
        let go : ((h + k) % c == t) ≡ false = differ (within k more) in
        let wrap : add_size (h + k) 1 ≡ h + (k + 1) = omega arith in
        let rest = λ (zs : List A) (p' : Placed (k + 1) zs).
          reposition_lem small t ends within fuel (k + 1) zs p' (omega arith) (omega arith) in
        rw (go, wrap)
          (elim (Bool-cases ((h + k) % c == (h + k) % (c * 2))) [
            | inl same ↦ rw same (rest _ (Placed-stay k ys p more (equal same)))
            | inr moves ↦ rw moves (rest _ (Placed-move k ys p more (unequal moves)))
          ])
    | no over ↦
        let e : k ≡ n = omega arith in
        let stop : ((h + n) % c == t) ≡ true = rw ends (same_number t) in
        rw (e, stop) (rw e at p, refl)
  ]
