-- ===== src/Cell/WhenAll/Slots.antt =====
-- The vector of resolved values, filled in any order.
use async_ery.Base.{
  ℕ, zero, suc, ◌<◌, ◌≡◌, ◌∙◌, refl, ap₂, sym, List, [], ◌∷◌, length, arith, set, get_or,
  length-set, get_or-set_self, get_or-set_ne, inl, inr, ℕ_discrete, subst,
}
use mathlib.Core.List.{Memᴰ}
use mathlib.Core.List.Memᴰ

module _ {ℓ} {T : Type ℓ} where
  -- The values of `n` cells, in the order of the cells.
  abbrev pub tabulate : ℕ → (ℕ → T) → List T
  tabulate zero f = []
  tabulate (suc n) f = f 0 ∷ tabulate n (λ i. f (suc i))

  abbrev pub fill : List ℕ → (ℕ → T) → List T → List T
  fill [] f xs = xs
  fill (j ∷ js) f xs = fill js f (set xs j (f j))

  pub length-fill :
      (order : List ℕ) (f : ℕ → T) (xs : List T) → length (fill order f xs) ≡ length xs
  length-fill [] f xs = refl
  length-fill (j ∷ js) f xs = length-fill js f (set xs j (f j)) ∙ length-set xs j (f j)

  set-here :
      (f : ℕ → T) (xs : List T) (i j : ℕ) (d : T)
      → i < length xs
      → get_or xs i d ≡ f i
      → get_or (set xs j (f j)) i d ≡ f i
  set-here f xs i j d lt h = elim (ℕ_discrete j i) [
    | yes e ↦
        subst (λ k. get_or (set xs k (f k)) i d ≡ f i) (sym e) (get_or-set_self xs i (f i) d lt)
    | no ne ↦ get_or-set_ne xs j i (f j) d ne ∙ h
  ]

  fill-kept :
      (order : List ℕ) (f : ℕ → T) (xs : List T) (i : ℕ) (d : T)
      → i < length xs
      → get_or xs i d ≡ f i
      → get_or (fill order f xs) i d ≡ f i
  fill-kept [] f xs i d lt h = h
  fill-kept (j ∷ js) f xs i d lt h =
      fill-kept js f (set xs j (f j)) i d (omega (arith, length-set xs j (f j)))
        (set-here f xs i j d lt h)

  pub fill-set :
      (order : List ℕ) (f : ℕ → T) (xs : List T) (i : ℕ) (d : T)
      → Memᴰ i order
      → i < length xs
      → get_or (fill order f xs) i d ≡ f i
  fill-set [] f xs i d m lt = absurd (Memᴰ.not-nil m)
  fill-set (j ∷ js) f xs i d m lt = elim (Memᴰ.cases_cons m) [
    | inl e ↦
        fill-kept js f (set xs j (f j)) i d (omega (arith, length-set xs j (f j)))
          (subst (λ k. get_or (set xs k (f k)) i d ≡ f i) e (get_or-set_self xs i (f i) d lt))
    | inr rest ↦ fill-set js f (set xs j (f j)) i d rest (omega (arith, length-set xs j (f j)))
  ]

  pub tabulated :
      (n : ℕ) (f : ℕ → T) (xs : List T) (d : T)
      → length xs ≡ n
      → ((i : ℕ) → i < n → get_or xs i d ≡ f i)
      → xs ≡ tabulate n f
  tabulated zero f [] d h same = refl
  tabulated zero f (x ∷ xs) d h same = absurd (omega arith)
  tabulated (suc n) f [] d h same = absurd (omega arith)
  tabulated (suc n) f (x ∷ xs) d h same =
      ap₂ (λ y ys. y ∷ ys) (same 0 (omega arith))
        (tabulated n (λ i. f (suc i)) xs d (omega arith) (λ i lt. same (suc i) (omega arith)))
