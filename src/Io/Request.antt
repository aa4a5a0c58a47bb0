-- ===== src/Io/Request.antt =====
-- src/io/include/io/types.h, src/io/include/io/io_request.h and src/io/src/io_request.cpp. A buffer is
-- an object of the memory, known by its number.
use async_ery.Base.{
  ℕ, suc, ◌<◌, ◌≡◌, ◌≢◌, List, length, take, take_all, ℤ, ◌==◌, if◌then◌else◌, false, same_number,
  differ, arith,
}

-- The objects that were allocated, and the number of the next one.
pub record Memory : Type 0 where
  pub bytes : ℕ → List ℕ
  pub next : ℕ

-- `new char[n]`, holding what the allocator leaves there.
abbrev allocate : Memory → List ℕ → ℕ × Memory
allocate m content =
    (m.next, record { bytes = λ b. if b == m.next then content else m.bytes b; next = suc m.next })

-- `class Size` and `class Offset` wrap the two numbers.
pub record ReadRequest : Type 0 where
  pub buffer : ℕ
  pub nbytes : ℕ
  pub file_offset : ℤ

abbrev pub size : ReadRequest → ℕ
size r = r.nbytes

abbrev pub offset : ReadRequest → ℤ
offset r = r.file_offset

-- The constructor; `garbage` is what the new buffer holds.
pub make : Memory → List ℕ → ℕ → ℤ → ReadRequest × Memory
make m garbage nbytes file_offset =
    let (buffer, m') = allocate m (take nbytes garbage) in
    (record { buffer = buffer; nbytes = nbytes; file_offset = file_offset }, m')

-- A new buffer with the bytes of the request's.
pub copy_buffer : Memory → ReadRequest → ℕ × Memory
copy_buffer m r = allocate m (take r.nbytes (m.bytes r.buffer))

-- A write to a buffer by anyone who holds it.
abbrev pub store : Memory → ℕ → List ℕ → Memory
store m b content = record m { bytes = λ c. if c == b then content else m.bytes c }

-- Of a buffer that is allocated and has the request's length, the copy is a new object with the same
-- bytes; the request's buffer is unchanged, and a later write to it leaves the copy as it was.
pub copy_buffer_lem :
    (m : Memory) (r : ReadRequest) (later : List ℕ)
    → r.buffer < m.next
    → length (m.bytes r.buffer) ≡ r.nbytes
    → let (copy, m') = copy_buffer m r in
      (copy ≢ r.buffer)
      × (m'.bytes copy ≡ m.bytes r.buffer)
      × (m'.bytes r.buffer ≡ m.bytes r.buffer)
      × ((store m' r.buffer later).bytes copy ≡ m.bytes r.buffer)
unfolding copy_buffer
copy_buffer_lem m r later old full =
    let all = take_all r.nbytes (m.bytes r.buffer) (omega arith) in
    let other : (m.next == r.buffer) ≡ false = differ (omega arith) in
    let other' : (r.buffer == m.next) ≡ false = differ (omega arith) in
    (omega arith, rw same_number all, rw other', rw (other, same_number) all)
