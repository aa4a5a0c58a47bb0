-- ===== src/Async/Tokens/Counts.antt =====
-- The count of the reports to a joined cell, of which each place makes one.
use async_ery.Base.{
  ℕ, zero, suc, ◌^◌, ◌≡◌, ◌≤◌, ◌<◌, ◌⊎◌, inl, inr, refl, sym, ◌∙◌, ap, Bool, Bool-cases, true,
  false, ◌==◌, equal, leb, add_size, if◌then◌else◌, arith, dec_lt,
}
use async_ery.Async.Due.{counted}
use async_ery.Async.Due.Counting.{mark, mark_other, mark_above}

pub counted_below : (f : ℕ → Bool) (n : ℕ) → counted f n ≤ n
counted_below f zero = omega arith
counted_below f (suc n) = elim (Bool-cases (f n)) [
  | inl e ↦ rw e (omega (arith, counted_below f n))
  | inr e ↦ rw e (omega (arith, counted_below f n))
]

counted_new :
    (f : ℕ → Bool) (i n : ℕ) → f i ≡ false → i < n → counted (mark f i) n ≡ suc (counted f n)
counted_new f i zero e lt = absurd (omega arith)
counted_new f i (suc n) e lt = elim (Bool-cases (n == i)) [
  | inl same ↦
      let none : f n ≡ false = ap f (equal same) ∙ e in
      rw (same, none) (omega (arith, mark_above f i n (ground arith)))
  | inr other ↦
      let rest = counted_new f i n e (ground arith) in
      elim (Bool-cases (f n)) [
        | inl h ↦ rw (other, h) (omega (arith, rest))
        | inr h ↦ rw (other, h) (omega (arith, rest))
      ]
]

-- All but one are there.
counted_full :
    (f : ℕ → Bool) (i n : ℕ)
    → f i ≡ false
    → i < n
    → n ≤ suc (counted f n)
    → (j : ℕ) → j < n
    → (j ≡ i) ⊎ (f j ≡ true)
counted_full f i zero e lt le j jn = absurd (omega arith)
counted_full f i (suc n) e lt le j jn = elim (Bool-cases (n == i)) [
  | inl same ↦
      let none : f n ≡ false = ap f (equal same) ∙ e in
      let full : n ≤ counted f n =
        let step : counted f (suc n) ≡ counted f n = rw none (omega arith) in omega (arith, step) in
      elim (Bool-cases (j == n)) [
        | inl at ↦ inl (equal at ∙ equal same)
        | inr not ↦ inr (all_there f n full j (ground arith))
      ]
  | inr other ↦ elim (Bool-cases (f n)) [
    | inl h ↦
        let step : counted f (suc n) ≡ suc (counted f n) = rw h (omega arith) in
        elim (Bool-cases (j == n)) [
          | inl at ↦ inr (ap f (equal at) ∙ h)
          | inr not ↦ counted_full f i n e (ground arith) (omega (arith, step)) j (ground arith)
        ]
    | inr h ↦
        let step : counted f (suc n) ≡ counted f n = rw h (omega arith) in
        absurd (omega (arith, step, some_missing f i n e (ground arith)))
  ]
]
  where
    all_there : (f : ℕ → Bool) (n : ℕ) → n ≤ counted f n → (j : ℕ) → j < n → f j ≡ true
    all_there f zero le j jn = absurd (omega arith)
    all_there f (suc n) le j jn = elim (Bool-cases (f n)) [
      | inl h ↦
          let step : counted f (suc n) ≡ suc (counted f n) = rw h (omega arith) in
          elim (Bool-cases (j == n)) [
            | inl at ↦ ap f (equal at) ∙ h
            | inr not ↦ all_there f n (omega (arith, step)) j (ground arith)
          ]
      | inr h ↦
          let step : counted f (suc n) ≡ counted f n = rw h (omega arith) in
          absurd (omega (arith, step, counted_below f n))
    ]

    some_missing : (f : ℕ → Bool) (i n : ℕ) → f i ≡ false → i < n → suc (counted f n) ≤ n
    some_missing f i n e lt = omega (arith, counted_new f i n e lt, counted_below (mark f i) n)

abbrev pub unmark : (ℕ → Bool) → ℕ → ℕ → Bool
unmark left i j = if j == i then false else left j

-- Of `n` places those that `told` says have told, each of which reports no more, and `num` is how many
-- they are.
pub record Count (n num : ℕ) (left told : ℕ → Bool) : Type 0 where
  pub spent : (i : ℕ) → told i ≡ true → left i ≡ false
  pub number : n < 2 ^ 64 → num ≡ counted told n

pub not_told :
    {n num : ℕ} {left told : ℕ → Bool} (i : ℕ)
    → Count n num left told
    → left i ≡ true
    → told i ≡ false
not_told {told = told} i c l = elim (Bool-cases (told i)) [
  | inl e ↦ absurd (cc (c.spent i e, l))
  | inr e ↦ e
]

-- A place that could report has told.
pub told-Count :
    {n num : ℕ} {left told : ℕ → Bool} (i : ℕ)
    → Count n num left told
    → left i ≡ true
    → i < n
    → Count n (add_size num 1) (unmark left i) (mark told i)
told-Count {n = n} {num = num} {left = left} {told = told} i c l lt = record {
  spent = λ j e. elim (Bool-cases (j == i)) [
    | inl same ↦ rw same refl
    | inr other ↦ rw other (c.spent j (sym (mark_other told i j other) ∙ e))
  ];
  number = λ fits.
      let new = counted_new told i n (not_told i c l) lt in
      omega (arith, c.number fits, new, counted_below (mark told i) n);
}

-- It has reported, and does not count.
pub dropped-Count :
    {n num : ℕ} {left told : ℕ → Bool} (i : ℕ)
    → Count n num left told
    → Count n num (unmark left i) told
dropped-Count i c = record {
  spent = λ j e. elim (Bool-cases (j == i)) [
    | inl same ↦ rw same refl
    | inr other ↦ rw other (c.spent j e)
  ];
  number = c.number;
}

-- The last one: the others have told.
pub last-Count :
    {n num : ℕ} {left told : ℕ → Bool} (i : ℕ)
    → Count n num left told
    → left i ≡ true
    → i < n
    → leb n (add_size num 1) ≡ true
    → (j : ℕ) → j < n
    → (j ≡ i) ⊎ (told j ≡ true)
last-Count {n = n} {num = num} {told = told} i c l lt last = elim (dec_lt n (2 ^ 64)) [
  | yes fits ↦
      counted_full told i n (not_told i c l) lt
        (ground (arith, c.number fits, counted_below told n, last))
  | no big ↦ absurd (ground (arith, last))
]
