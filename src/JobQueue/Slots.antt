-- ===== src/JobQueue/Slots.antt =====
-- Runs of consecutive entries round a ring of `cap` slots, and what a write does to them.
use async_ery.Base.{
  ℕ, zero, suc, ◌+◌, ◌%◌, ◌<◌, ◌≡◌, refl, ap₂, List, [], ◌∷◌, ◌++◌, length, get_or, arith,
}

module _ {ℓ} {A : Type ℓ} (blank : A) where
  -- The `n` entries from number `e` on; entry `e` is in slot `e % cap`.
  abbrev pub slots : ℕ → List A → ℕ → ℕ → List A
  slots cap xs e zero = []
  slots cap xs e (suc n) = get_or xs (e % cap) blank ∷ slots cap xs (e + 1) n

  pub length-slots : (cap : ℕ) (xs : List A) (e n : ℕ) → length (slots cap xs e n) ≡ n
  length-slots cap xs e zero = refl
  length-slots cap xs e (suc n) = omega (arith, length-slots cap xs (e + 1) n)

  -- Two runs are equal if they are so entry by entry.
  pub slots_ext :
      (c d : ℕ) (xs ys : List A) (e f n : ℕ)
      → ((i : ℕ) → i < n → get_or xs ((e + i) % c) blank ≡ get_or ys ((f + i) % d) blank)
      → slots c xs e n ≡ slots d ys f n
  slots_ext c d xs ys e f zero h = refl
  slots_ext c d xs ys e f (suc n) h =
      ap₂ ◌∷◌ first
        (slots_ext c d xs ys (e + 1) (f + 1) n λ i lt. later i (h (i + 1) (omega arith)))
    where
      first : get_or xs (e % c) blank ≡ get_or ys (f % d) blank
      first =
          let p : e + 0 ≡ e = omega arith in
          let q : f + 0 ≡ f = omega arith in rw (p, q) at (h 0 (omega arith))

      later :
          (i : ℕ)
          → get_or xs ((e + (i + 1)) % c) blank ≡ get_or ys ((f + (i + 1)) % d) blank
          → get_or xs ((e + 1 + i) % c) blank ≡ get_or ys ((f + 1 + i) % d) blank
      later i k =
          let p : e + 1 + i ≡ e + (i + 1) = omega arith in
          let q : f + 1 + i ≡ f + (i + 1) = omega arith in rw (p, q) k

  pub slots-snoc :
      (c : ℕ) (xs : List A) (e n : ℕ)
      → slots c xs e (suc n) ≡ slots c xs e n ++ get_or xs ((e + n) % c) blank ∷ []
  slots-snoc c xs e zero = let p : e + 0 ≡ e = omega arith in rw p
  slots-snoc c xs e (suc n) =
      let p : e + suc n ≡ e + 1 + n = omega arith in rw p (ap₂ ◌∷◌ refl (slots-snoc c xs (e + 1) n))
