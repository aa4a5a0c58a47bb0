-- ===== src/Async/Due/Counting.antt =====
-- Counting the reports to a joined cell.
use async_ery.Base.{
  ℕ, zero, suc, ◌≡◌, ◌≤◌, ◌<◌, ◌⊎◌, inl, inr, refl, sym, subst, Bool, Bool-cases, true, false, ◌==◌,
  equal, differ, same_number, if◌then◌else◌, arith,
}
use async_ery.Async.Due.{counted}

-- Each has the one property, or some number has the other.
pub find_other :
    (A B : ℕ → Type 0) (n : ℕ)
    → ((i : ℕ) → i < n → A i ⊎ B i)
    → ((i : ℕ) → i < n → A i) ⊎ ((i : ℕ) × (i < n) × B i)
find_other A B zero h = inl (λ i lt. absurd (omega arith))
find_other A B (suc n) h = elim (find_other A B n (λ i lt. h i (omega arith))) [
  | inr (i, lt, b) ↦ inr (i, omega arith, b)
  | inl all ↦ elim (h n (omega arith)) [
    | inr b ↦ inr (n, omega arith, b)
    | inl a ↦ inl (λ i lt. elim (Bool-cases (i == n)) [
      | inl e ↦ subst A (sym (equal e)) a
      | inr e ↦ all i (ground arith)
    ])
  ]
]

abbrev pub mark : (ℕ → Bool) → ℕ → ℕ → Bool
mark reported i j = if j == i then true else reported j

pub mark_self : (reported : ℕ → Bool) (i : ℕ) → mark reported i i ≡ true
mark_self reported i = rw (same_number i) refl

pub mark_other : (reported : ℕ → Bool) (i j : ℕ) → (j == i) ≡ false → mark reported i j ≡ reported j
mark_other reported i j e = rw e refl

pub mark_above :
    (reported : ℕ → Bool) (i n : ℕ) → n ≤ i → counted (mark reported i) n ≡ counted reported n
mark_above reported i zero h = refl
mark_above reported i (suc n) h =
    let other : (n == i) ≡ false = differ (omega arith) in
    rw other (omega (arith, mark_above reported i n (omega arith)))

pub counted-mark :
    (reported : ℕ → Bool) (i n : ℕ) → counted (mark reported i) n ≤ suc (counted reported n)
counted-mark reported i zero = omega arith
counted-mark reported i (suc n) = elim (Bool-cases (n == i)) [
  | inl e ↦ rw e (ground (arith, mark_above reported i n (ground arith)))
  | inr e ↦ rw e (omega (arith, counted-mark reported i n))
]

-- All have reported.
pub counted_all :
    (reported : ℕ → Bool) (n : ℕ) → ((i : ℕ) → i < n → reported i ≡ true) → counted reported n ≡ n
counted_all reported zero h = refl
counted_all reported (suc n) h =
    rw (h n (omega arith)) (omega (arith, counted_all reported n (λ i lt. h i (omega arith))))

pub counted_none : (n : ℕ) → counted (λ i. false) n ≡ 0
counted_none zero = refl
counted_none (suc n) = omega (arith, counted_none n)
