-- ===== src/Cell/WriteOnce/Held.antt =====
-- What a cell keeps, for a client that says which results its value may be, `Q`, which callbacks may
-- wait for such a result, `W`, and with what a callback may be called, `F`.
use mathlib.Core.Option.{some-injective}
use async_ery.Base.{◌≡◌, refl, subst, Option, none, some, List, [], ◌∷◌, map, All, All-append}
use async_ery.Cell.Result.{Result}
use async_ery.Cell.WriteOnce.{
  Delivery, WriteOnceCell, deliver, write_result_at, write_result_to_value, await, await_at,
}
use async_ery.Scheduler.Context.{Context}

module _ {ℓ} {C T Err : Type ℓ} (Q : Result T Err → Type ℓ) (W : C → Type ℓ)
    (F : C → Result T Err → Type ℓ)
    (meets : (callback : C) (r : Result T Err) → W callback → Q r → F callback r) where
  abbrev pub Held : WriteOnceCell C T Err → Type ℓ
  Held k = ((r : Result T Err) → k.value ≡ some r → Q r) × All W k.callbacks

  abbrev pub Calls : List (Delivery C T Err) → Type ℓ
  Calls = All (λ d. F d.callback d.result)

  pub await-Held :
      (k : WriteOnceCell C T Err) (callback : C)
      → Held k
      → W callback
      → Held (await k callback).0 × Calls (await k callback).1
  unfolding await
  await-Held k callback h w = at k.value refl
    where
      at :
          (o : Option (Result T Err))
          → k.value ≡ o
          → Held (await_at o k callback).0 × Calls (await_at o k callback).1
      at (some r) e = (h, (meets callback r w (h.0 r e), tt))
      at none e = ((h.0, All-append W k.callbacks (callback ∷ []) h.1 (w, tt)), tt)

  delivered :
      (ctx : Context) (r : Result T Err) (callbacks : List C)
      → Q r
      → All W callbacks
      → Calls (map (deliver ctx r) callbacks)
  delivered ctx r [] q h = tt
  delivered ctx r (callback ∷ callbacks) q h =
      (meets callback r h.0 q, delivered ctx r callbacks q h.1)

  pub write-Held :
      (k : WriteOnceCell C T Err) (ctx : Context) (r : Result T Err)
      → Held k
      → Q r
      → Held (write_result_to_value k ctx r).1 × Calls (write_result_to_value k ctx r).2
  unfolding write_result_to_value
  write-Held k ctx r h q = at k.value
    where
      at :
          (o : Option (Result T Err))
          → Held (write_result_at o k ctx r).1 × Calls (write_result_at o k ctx r).2
      at (some old) = (h, tt)
      at none = ((λ r' e. subst Q (some-injective r r' e) q, tt), delivered ctx r k.callbacks q h.1)
