-- ===== src/Cell/Result.antt =====
-- src/cell/include/cell/cell_result.h.

-- `std::variant<T, Err>`
pub data Result {ℓ} (T Err : Type ℓ) : Type ℓ where
  value : T → Result T Err
  error : Err → Result T Err

abbrev pub visit_result {ℓ} : {T Err S : Type ℓ} → Result T Err → (T → S) → (Err → S) → S
visit_result (value t) visit_t visit_err = visit_t t
visit_result (error e) visit_t visit_err = visit_err e

abbrev pub map_result {ℓ} : {T Err S : Type ℓ} → Result T Err → (T → S) → (Err → S) → S
map_result (value t) t_func err_func = t_func t
map_result (error e) t_func err_func = err_func e
