-- ===== src/Base/Sums.antt =====
-- Sums of weights over a list, a property of all its members, and what a write does to them.
use Prim.Native.Nat.{ℕ, zero, suc, ◌+◌, ◌<◌}
use mathlib.Core.Path.{◌≡◌, refl, ap, subst}
use mathlib.Core.Logic.{◌⊎◌, inl, inr}
use mathlib.Core.List.{List, [], ◌∷◌, ◌++◌, map}
use native.Mathlib.Omega.{arith}
use async_ery.Base.Lists.{length, get_or, set, replicate}

abbrev pub total {ℓ} : {A : Type ℓ} → (A → ℕ) → List A → ℕ
total w [] = 0
total w (x ∷ xs) = w x + total w xs

abbrev pub All {ℓ κ} : {A : Type ℓ} → (A → Type κ) → List A → Type κ
All P [] = Unit
All P (x ∷ xs) = P x × All P xs

module _ {ℓ} {A : Type ℓ} (w : A → ℕ) where
  pub total-append : (xs ys : List A) → total w (xs ++ ys) ≡ total w xs + total w ys
  total-append [] ys = omega arith
  total-append (x ∷ xs) ys = omega (arith, total-append xs ys)

  pub total-set :
      (xs : List A) (i : ℕ) (v d : A)
      → i < length xs
      → total w (set xs i v) + w (get_or xs i d) ≡ total w xs + w v
  total-set [] i v d h = absurd (omega arith)
  total-set (x ∷ xs) zero v d h = omega arith
  total-set (x ∷ xs) (suc i) v d h = omega (arith, total-set xs i v d (omega arith))

  pub total-replicate : (n : ℕ) (a : A) → w a ≡ 0 → total w (replicate n a) ≡ 0
  total-replicate zero a h = refl
  total-replicate (suc n) a h = omega (arith, total-replicate n a h)

  pub total-map {κ} :
      {B : Type κ} (f : B → A) (xs : List B) → total w (map f xs) ≡ total (λ b. w (f b)) xs
  total-map f [] = refl
  total-map f (x ∷ xs) = omega (arith, total-map f xs)

module _ {ℓ κ} {A : Type ℓ} (P : A → Type κ) where
  pub All-get_or : (xs : List A) (i : ℕ) (d : A) → i < length xs → All P xs → P (get_or xs i d)
  All-get_or [] i d h all = absurd (omega arith)
  All-get_or (x ∷ xs) zero d h all = all.0
  All-get_or (x ∷ xs) (suc i) d h all = All-get_or xs i d (omega arith) all.1

  pub All-set : (xs : List A) (i : ℕ) (v : A) → P v → All P xs → All P (set xs i v)
  All-set [] i v p all = tt
  All-set (x ∷ xs) zero v p all = (p, all.1)
  All-set (x ∷ xs) (suc i) v p all = (all.0, All-set xs i v p all.1)

module _ {ℓ} {A : Type ℓ} where
  pub set_self : (xs : List A) (i : ℕ) (d : A) → set xs i (get_or xs i d) ≡ xs
  set_self [] i d = refl
  set_self (x ∷ xs) zero d = refl
  set_self (x ∷ xs) (suc i) d = ap (λ ys. x ∷ ys) (set_self xs i d)

  pub total-eq-zero :
      (w : A → ℕ) (xs : List A) (d : A)
      → ((i : ℕ) → i < length xs → w (get_or xs i d) ≡ 0)
      → total w xs ≡ 0
  total-eq-zero w [] d h = refl
  total-eq-zero w (x ∷ xs) d h =
      omega (arith, h 0 (omega arith), total-eq-zero w xs d λ i lt. h (suc i) (omega arith))

module _ {ℓ κ} {A : Type ℓ} (P : A → Type κ) where
  pub All-append : (xs ys : List A) → All P xs → All P ys → All P (xs ++ ys)
  All-append [] ys hx hy = hy
  All-append (x ∷ xs) ys hx hy = (hx.0, All-append xs ys hx.1 hy)

  pub All-map {μ} :
      {B : Type μ} (f : B → A) (ys : List B) → All (λ b. P (f b)) ys → All P (map f ys)
  All-map f [] h = tt
  All-map f (y ∷ ys) h = (h.0, All-map f ys h.1)

module _ {A : Type 0} where
  abbrev pub Mem : A → List A → Type 0
  Mem a [] = ⊥
  Mem a (x ∷ xs) = (x ≡ a) ⊎ Mem a xs

  pub append-Mem : (a : A) (xs ys : List A) → Mem a xs → Mem a (xs ++ ys)
  append-Mem a [] ys m = absurd m
  append-Mem a (x ∷ xs) ys (inl e) = inl e
  append-Mem a (x ∷ xs) ys (inr m) = inr (append-Mem a xs ys m)

  pub last-Mem : (a : A) (xs : List A) → Mem a (xs ++ a ∷ [])
  last-Mem a [] = inl refl
  last-Mem a (x ∷ xs) = inr (last-Mem a xs)

pub All-Mem {κ} : {A : Type 0} (P : A → Type κ) (a : A) (xs : List A) → All P xs → Mem a xs → P a
All-Mem P a [] h m = absurd m
All-Mem P a (x ∷ xs) h (inl e) = subst P e h.0
All-Mem P a (x ∷ xs) h (inr m) = All-Mem P a xs h.1 m
