-- ===== src/Concurrency/SpinLock/Exclusion.antt =====
-- Who holds the lock, in the states that threads can reach.
use async_ery.Base.{ℕ, ◌≡◌, refl, ◌≢◌, Bool, true, false, arith}
use async_ery.Concurrency.SpinLock.{
  Pc, idle, attempt, exchange, back_off, holding, System, init, move, Reach, start, later,
}

pub record Inv (s : System) : Type 0 where
  unique : (i j : ℕ) → s.pc i ≡ holding → s.pc j ≡ holding → i ≡ j
  flagged : (i : ℕ) → s.pc i ≡ holding → s.is_acquired ≡ true
  owned : s.is_acquired ≡ true → (i : ℕ) × (s.pc i ≡ holding)

init-Inv : Inv init
init-Inv = record { unique = λ i j p q. cc; flagged = λ i p. cc; owned = λ h. cc }

move_unique :
    (i : ℕ) (s : System) (p : Pc)
    → s.pc i ≡ p
    → Inv s
    → (a b : ℕ) → (move i s).pc a ≡ holding
    → (move i s).pc b ≡ holding
    → a ≡ b
unfolding move
move_unique i s idle e v a b = ground (arith, v.unique a b, v.flagged a, v.flagged b)
move_unique i s (attempt n) e v a b = ground (arith, v.unique a b, v.flagged a, v.flagged b)
move_unique i s exchange e v a b = ground (arith, v.unique a b, v.flagged a, v.flagged b)
move_unique i s back_off e v a b = ground (arith, v.unique a b, v.flagged a, v.flagged b)
move_unique i s holding e v a b = ground (arith, v.unique a b, v.unique i a, v.unique i b)

move-flagged :
    (i : ℕ) (s : System) (p : Pc)
    → s.pc i ≡ p
    → Inv s
    → (a : ℕ) → (move i s).pc a ≡ holding
    → (move i s).is_acquired ≡ true
unfolding move
move-flagged i s idle e v a = ground (arith, v.flagged a)
move-flagged i s (attempt n) e v a = ground (arith, v.flagged a)
move-flagged i s exchange e v a = ground (arith, v.flagged a)
move-flagged i s back_off e v a = ground (arith, v.flagged a)
move-flagged i s holding e v a = ground (arith, v.unique i a)

-- A step that is no release: who held the lock holds it still.
still_held :
    (i : ℕ) (s : System) → s.pc i ≢ holding → (a : ℕ) → s.pc a ≡ holding → (move i s).pc a ≡ holding
unfolding move
still_held i s h a e = ground arith

move-owned :
    (i : ℕ) (s : System) (p : Pc)
    → s.pc i ≡ p
    → Inv s
    → (move i s).is_acquired ≡ true
    → (a : ℕ) × ((move i s).pc a ≡ holding)
unfolding move
move-owned i s idle e v h =
    let (a, held) = v.owned (ground arith) in (a, still_held i s (λ q. cc) a held)
move-owned i s (attempt n) e v h =
    let (a, held) = v.owned (ground arith) in (a, still_held i s (λ q. cc) a held)
move-owned i s exchange e v h = took (s.is_acquired) refl
  where
    took : (b : Bool) → s.is_acquired ≡ b → (a : ℕ) × ((move i s).pc a ≡ holding)
    took true f = let (a, held) = v.owned f in (a, still_held i s (λ q. cc) a held)
    took false f = (i, ground arith)
move-owned i s back_off e v h =
    let (a, held) = v.owned (ground arith) in (a, still_held i s (λ q. cc) a held)
move-owned i s holding e v h = absurd (ground arith)

-- Every step keeps the invariant.
move-Inv : (i : ℕ) (s : System) → Inv s → Inv (move i s)
move-Inv i s v = record {
  unique = move_unique i s (s.pc i) refl v;
  flagged = move-flagged i s (s.pc i) refl v;
  owned = move-owned i s (s.pc i) refl v;
}

Reach-Inv : {s : System} → Reach s → Inv s
Reach-Inv start = init-Inv
Reach-Inv (later {s} i r) = move-Inv i s (Reach-Inv r)

-- In every reachable state at most one thread holds the lock, and the flag is set exactly while a
-- thread holds it.
pub mutual_exclusion :
    {s : System}
    → Reach s
    → ((i j : ℕ) → s.pc i ≡ holding → s.pc j ≡ holding → i ≡ j)
      × ((i : ℕ) → s.pc i ≡ holding → s.is_acquired ≡ true)
      × (s.is_acquired ≡ true → (i : ℕ) × (s.pc i ≡ holding))
mutual_exclusion r = let v = Reach-Inv r in (v.unique, v.flagged, v.owned)
