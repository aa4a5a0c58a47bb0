-- ===== src/Io/PollSource/Laws.antt =====
-- The jobs of a poll, and what they report.
use async_ery.Base.{
  ℕ, ◌+◌, total, arith, ◌≡◌, refl, sym, ap, ap₂, ◌∙◌, inl, inr, Bool, Bool-cases, not, List, [],
  ◌∷◌, ◌++◌, append-nil, append_assoc, All, if◌then◌else◌,
}
use async_ery.Io.Aio.{
  AioLibrary, Reports, is_completed, IsSettled, is_completed_settled, result_completed,
}
use async_ery.Io.PollSource.{Waiting, PollSource, sort_out, poll, run_job}

-- The members that pass a test, in their order.
pub keep {ℓ} : {A : Type ℓ} → (A → Bool) → List A → List A
keep test [] = []
keep test (x ∷ xs) = if test x then x ∷ keep test xs else keep test xs

keep-keep-not {ℓ} :
    {A : Type ℓ} (test : A → Bool) (xs : List A) → keep test (keep (λ x. not (test x)) xs) ≡ []
unfolding keep
keep-keep-not test [] = refl
keep-keep-not test (x ∷ xs) = elim (Bool-cases (test x)) [
  | inl t ↦ rw t (keep-keep-not test xs)
  | inr f ↦ rw (f, keep, f) (keep-keep-not test xs)
]

pub keep-total {ℓ} :
    {A : Type ℓ} (p : A → ℕ) (test : A → Bool) (xs : List A)
    → total p (keep test xs) + total p (keep (λ x. not (test x)) xs) ≡ total p xs
unfolding keep
keep-total p test [] = omega arith
keep-total p test (x ∷ xs) = elim (Bool-cases (test x)) [
  | inl t ↦ rw t (omega (arith, keep-total p test xs))
  | inr f ↦ rw f (omega (arith, keep-total p test xs))
]

module _ {System Callback : Type 0} (lib : AioLibrary System) where
  abbrev pub done : System → Waiting Callback → Bool
  done sys w = is_completed lib sys w.request

  sort_out_lem :
      (sys : System) (ws completed pending : List (Waiting Callback))
      → sort_out lib sys ws completed pending
        ≡ (completed ++ keep (done sys) ws, pending ++ keep (λ w. not (done sys w)) ws)
  unfolding sort_out keep
  sort_out_lem sys [] completed pending =
      ap₂ (λ a b. (a, b)) (sym (append-nil completed)) (sym (append-nil pending))
  sort_out_lem sys (w ∷ ws) completed pending = elim (Bool-cases (done sys w)) [
    | inl t ↦ rw t (
        sort_out_lem sys ws (completed ++ w ∷ []) pending
        ∙ ap (λ xs. (xs, pending ++ keep (λ w. not (done sys w)) ws))
            (append_assoc completed (w ∷ []) (keep (done sys) ws)))
    | inr f ↦ rw f (
        sort_out_lem sys ws completed (pending ++ w ∷ [])
        ∙ ap (λ xs. (completed ++ keep (done sys) ws, xs))
            (append_assoc pending (w ∷ []) (keep (λ w. not (done sys w)) ws)))
  ]

  -- A poll makes a job of each completed request and keeps the others, both in their order, and a
  -- second poll of the same state finds nothing more.
  pub poll_lem :
      (s : PollSource Callback) (sys : System)
      → let (jobs, s') = poll lib s sys in
        (jobs ≡ keep (done sys) s.in_flight_requests)
        × (s'.in_flight_requests ≡ keep (λ w. not (done sys w)) s.in_flight_requests)
        × ((poll lib s' sys).0 ≡ [])
  unfolding poll
  poll_lem s sys =
      let both = sort_out_lem sys s.in_flight_requests [] [] in
      let jobs = ap (λ r. r.0) both in
      let left = ap (λ r. r.1) both in
      (
        jobs,
        left,
        ap (λ ws. (sort_out lib sys ws [] []).0) left
            ∙ ap (λ r. r.0)
                (sort_out_lem sys (keep (λ w. not (done sys w)) s.in_flight_requests) [] [])
            ∙ keep-keep-not (done sys) s.in_flight_requests,
      )

  abbrev pub Delivers : System → Waiting Callback → Type 0
  Delivers sys' w =
      Reports lib w.request.request (lib.aio_error sys' w.request.control_block)
        (run_job lib sys' w).1

  kept-Delivers :
      (sys sys' : System)
      → IsSettled lib sys sys'
      → (ws : List (Waiting Callback)) → All (Delivers sys') (keep (done sys) ws)
  unfolding keep run_job
  kept-Delivers sys sys' settled [] = tt
  kept-Delivers sys sys' settled (w ∷ ws) = elim (Bool-cases (done sys w)) [
    | inr f ↦ rw f (kept-Delivers sys sys' settled ws)
    | inl t ↦ rw t (
      result_completed lib sys' w.request (is_completed_settled lib sys sys' settled w.request t),
      kept-Delivers sys sys' settled ws,
    )
  ]

  -- If settled statuses stay as they are, every job that a poll made reports its request's data or
  -- error, and never that it is in progress, in whatever later state of the system it runs.
  pub run_job_lem :
      (s : PollSource Callback) (sys sys' : System)
      → IsSettled lib sys sys'
      → All (Delivers sys') (poll lib s sys).0
  run_job_lem s sys sys' settled =
      rw (poll_lem s sys).0 (kept-Delivers sys sys' settled s.in_flight_requests)
