-- ===== src/Cell/WriteOnce/Lossless.antt =====
-- An operation on a write-once cell loses no callback: each one still waits or is called.
use async_ery.Base.{
  Bool, true, false, ap, ◌≡◌, ◌⊎◌, inl, inr, refl, subst, Option, none, some, List, [], ◌∷◌, map,
  Mem, append-Mem, last-Mem,
}
use mathlib.Core.Option.{none-ne-some}
use async_ery.Cell.Result.{Result}
use async_ery.Cell.WriteOnce.{
  Delivery, WriteOnceCell, await, await_at, deliver, write_result_to_value, write_result_at,
}
use async_ery.Scheduler.Context.{Context}

abbrev pub filled {ℓ} : {A : Type ℓ} → Option A → Bool
filled none = false
filled (some a) = true

module _ {C T Err : Type 0} where
  -- One of the calls is of this callback.
  abbrev pub Called : C → List (Delivery C T Err) → Type 0
  Called callback [] = ⊥
  Called callback (d ∷ calls) = (d.callback ≡ callback) ⊎ Called callback calls

  -- A cell that has a value holds no callbacks.
  abbrev pub IsTidy : WriteOnceCell C T Err → Type 0
  IsTidy k = (r : Result T Err) → k.value ≡ some r → k.callbacks ≡ []

  pub record Lossless (k k' : WriteOnceCell C T Err) (calls : List (Delivery C T Err))
      : Type 0 where
    pub kept :
        (callback : C)
        → Mem callback k.callbacks
        → Mem callback k'.callbacks ⊎ Called callback calls
    pub tidy : IsTidy k → IsTidy k'
    pub stays : filled k.value ≡ true → filled k'.value ≡ true

  pub same-Lossless : (k : WriteOnceCell C T Err) → Lossless k k []
  same-Lossless k = record { kept = λ callback m. inl m; tidy = λ h. h; stays = λ h. h }

  map-Called :
      (ctx : Context) (r : Result T Err) (callback : C) (callbacks : List C)
      → Mem callback callbacks
      → Called callback (map (deliver ctx r) callbacks)
  map-Called ctx r callback [] m = absurd m
  map-Called ctx r callback (c ∷ callbacks) (inl e) = inl e
  map-Called ctx r callback (c ∷ callbacks) (inr m) = inr (map-Called ctx r callback callbacks m)

  -- `await` keeps what waits, and its own callback waits or is called.
  pub await-Lossless :
      (k : WriteOnceCell C T Err) (callback : C)
      → let (k', calls) = await k callback in
        Lossless k k' calls × (Mem callback k'.callbacks ⊎ Called callback calls)
  unfolding await
  await-Lossless k callback = at k.value refl
    where
      at :
          (o : Option (Result T Err))
          → k.value ≡ o
          → let (k', calls) = await_at o k callback in
            Lossless k k' calls × (Mem callback k'.callbacks ⊎ Called callback calls)
      at (some r) e =
          (record { kept = λ c m. inl m; tidy = λ h. h; stays = λ h. h }, inr (inl refl))
      at none e = (
        record {
          kept = λ c m. inl (append-Mem c k.callbacks (callback ∷ []) m);
          tidy = λ h r e'. absurd (none-ne-some r (subst (λ a. a ≡ some r) e e'));
          stays = λ h. h;
        },
        inl (last-Mem callback k.callbacks),
      )

  pub write-Lossless :
      (k : WriteOnceCell C T Err) (ctx : Context) (r : Result T Err)
      → let (ok, k', calls) = write_result_to_value k ctx r in Lossless k k' calls
  unfolding write_result_to_value
  write-Lossless k ctx r = at k.value
    where
      at :
          (o : Option (Result T Err))
          → let (ok, k', calls) = write_result_at o k ctx r in Lossless k k' calls
      at (some old) = same-Lossless k
      at none = record {
        kept = λ c m. inr (map-Called ctx r c k.callbacks m);
        tidy = λ h q e. refl;
        stays = λ h. refl;
      }

  -- After a write the cell has a value.
  pub filled-write :
      (k : WriteOnceCell C T Err) (ctx : Context) (r : Result T Err)
      → let (ok, k', calls) = write_result_to_value k ctx r in filled k'.value ≡ true
  unfolding write_result_to_value
  filled-write k ctx r = at k.value refl
    where
      at :
          (o : Option (Result T Err))
          → k.value ≡ o
          → let (ok, k', calls) = write_result_at o k ctx r in filled k'.value ≡ true
      at (some old) e = ap filled e
      at none e = refl
