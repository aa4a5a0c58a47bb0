-- ===== src/Io/Aio.antt =====
-- src/io/include/io/aio.h, src/io/include/io/aio_request_result.h and src/io/src/aio.cpp. The aio
-- calls of the C library and its error numbers are parameters.
use async_ery.Base.{
  ℕ, ◌≡◌, ◌≢◌, ◌⊎◌, inl, inr, Bool, Bool-cases, equal, unequal, true, false, not, ℤ, ◌==◌,
  if◌then◌else◌, arith,
}
use async_ery.Io.Request.{ReadRequest, size, offset}

pub data AioError : Type 0 where
  canceled no_exist unknown in_progress : AioError

-- `std::variant<T, AIOError>`
pub data AioResult {ℓ} (A : Type ℓ) : Type ℓ where
  value : A → AioResult A
  error : AioError → AioResult A

abbrev pub visit_aio_result {ℓ κ} :
    {A : Type ℓ} {B : Type κ} → AioResult A → (A → B) → (AioError → B) → B
visit_aio_result (value a) on_success on_error = on_success a
visit_aio_result (error e) on_success on_error = on_error e

-- `struct aiocb`, with the fields that are set; the opcode is a read.
pub record Aiocb : Type 0 where
  pub aio_fildes : ℕ
  pub aio_buf : ℕ
  pub aio_nbytes : ℕ
  pub aio_offset : ℤ

pub record InFlightAioRequest : Type 0 where
  pub request : ReadRequest
  pub control_block : Aiocb

-- What <aio.h> and <errno.h> give: `aio_error` reads the state of a request, `aio_read` starts one.
pub record AioLibrary (System : Type 0) : Type 0 where
  pub einprogress : ℕ
  pub ecanceled : ℕ
  pub eexist : ℕ
  pub aio_error : System → Aiocb → ℕ
  pub aio_read : System → Aiocb → System

module _ {System : Type 0} (lib : AioLibrary System) where
  open lib use {einprogress, ecanceled, eexist, aio_error, aio_read}

  unfoldable pub is_completed : System → InFlightAioRequest → Bool
  is_completed sys r = not (aio_error sys r.control_block == einprogress)

  unfoldable pub parse_aio_error : ℕ → AioError
  parse_aio_error error_code =
      if error_code == einprogress
      then in_progress
      else (if error_code == ecanceled
          then canceled
          else (if error_code == eexist then no_exist else unknown))

  pub result : System → InFlightAioRequest → AioResult ReadRequest
  unfolding parse_aio_error
  result sys r =
      let aio_status = aio_error sys r.control_block in
      if aio_status == 0 then value r.request else error (parse_aio_error aio_status)

  -- `fileno` is the descriptor of the stream.
  pub enqueue_and_start_read : System → ℕ → ReadRequest → InFlightAioRequest × System
  enqueue_and_start_read sys fileno request =
      let control_block : Aiocb = record {
        aio_fildes = fileno;
        aio_buf = request.buffer;
        aio_nbytes = size request;
        aio_offset = offset request;
      } in
      (record { request = request; control_block = control_block }, aio_read sys control_block)

  -- What the result of a request says, by the status that `aio_error` gave.
  abbrev pub Reports : ReadRequest → ℕ → AioResult ReadRequest → Type 0
  Reports request status r =
      ((status ≡ 0) × (r ≡ value request))
      ⊎ ((status ≢ 0) × ((e : AioError) × (r ≡ error e) × (e ≢ in_progress)))

  parse-ne_in_progress :
      (code : ℕ) → (code == einprogress) ≡ false → parse_aio_error code ≢ in_progress
  unfolding parse_aio_error
  parse-ne_in_progress code h = ground arith

  -- A completed request yields its data if its status is zero, and otherwise an error that is
  -- never `in_progress`.
  pub result_completed :
      (sys : System) (r : InFlightAioRequest)
      → is_completed sys r ≡ true
      → Reports r.request (aio_error sys r.control_block) (result sys r)
  unfolding is_completed result
  result_completed sys r h =
      let status = aio_error sys r.control_block in
      elim (Bool-cases (status == 0)) [
        | inl zero_status ↦ inl (equal zero_status, rw zero_status)
        | inr other ↦ inr (
          unequal other,
          (parse_aio_error status, rw other, parse-ne_in_progress status (ground arith)),
        )
      ]

  -- A status that is not `einprogress` stays as it is, as POSIX says of `aio_error`.
  abbrev pub IsSettled : System → System → Type 0
  IsSettled sys sys' =
      (cb : Aiocb)
      → lib.aio_error sys cb ≢ lib.einprogress
      → lib.aio_error sys' cb ≡ lib.aio_error sys cb

  pub is_completed_settled :
      (sys sys' : System)
      → IsSettled sys sys'
      → (r : InFlightAioRequest) → is_completed sys r ≡ true
      → is_completed sys' r ≡ true
  unfolding is_completed
  is_completed_settled sys sys' settled r h =
      let same = settled r.control_block (ground arith) in rw same h
