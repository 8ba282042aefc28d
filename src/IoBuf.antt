-- ===== src/IoBuf.antt =====
-- The byte buffer: src/IOBuf.cpp and include/IOBuf.h.
--
-- `IoBufImp` is `IOBufImp`: the bytes of the vector and the two indices. A method that changes the
-- object returns the new object beside its status. `none` is undefined behaviour: a `memcpy` outside
-- the vector or the caller's memory, or between ranges that overlap. `size_t` arithmetic wraps.
pub mod Invariant
pub mod Compact
pub mod Space
pub mod Overflow
pub mod Stream
pub mod History
mod Tests
use sdpf.Prelude.{
  ℕ, ◌+◌, ◌*◌, ◌-◌, ◌/◌, ◌%◌, Bool, true, false, not, ◌&&◌, ◌||◌, Option, none, some, List, [],
  ◌++◌, length, take, drop, replicate, overwrite, ltb, leb, ◌==◌, if◌then◌else◌, ℤ, pos, neg,
  is_zero, ◌>>=◌, add_size, sub_size,
}

-- A byte is only moved, never computed with, so it is any number.
pub record IoBufImp : Type 0 where
  pub buff : List ℕ
  pub read_index : ℕ
  pub write_index : ℕ

-- `IOBuf::initialSize` and `_Max_Size`
abbrev pub initial_size : ℕ
initial_size = 1024

abbrev pub max_size : ℕ
max_size = initial_size * 4

-- `IOBufImp::IOBufImp(size_t init)`: a vector of `init` zero bytes.
unfoldable pub create : ℕ → IoBufImp
create n = record { buff = replicate n 0; read_index = 0; write_index = 0 }

-- `memcpy` of `n` bytes of memory `src` to index `dst` of the vector. The regions are distinct.
unfoldable pub memcpy_in : List ℕ → ℕ → List ℕ → ℕ → Option (List ℕ)
memcpy_in buff dst src n =
    if leb (dst + n) (length buff) && leb n (length src)
    then some (overwrite buff dst (take n src))
    else none

-- `memcpy` inside the vector: undefined if the ranges overlap.
unfoldable pub memcpy_within : List ℕ → ℕ → ℕ → ℕ → Option (List ℕ)
memcpy_within buff dst src n =
    if leb (dst + n) (length buff)
      && (leb (src + n) (length buff) && (leb (dst + n) src || leb (src + n) dst))
    then some (overwrite buff dst (take n (drop src buff)))
    else none

-- `std::vector::resize`: cut off, or filled up with zero bytes.
unfoldable pub resize : List ℕ → ℕ → List ℕ
resize buff n = take n buff ++ replicate (n - length buff) 0

unfoldable pub readable_bytes : IoBufImp → ℕ
readable_bytes b = sub_size b.write_index b.read_index

-- The memory from `begin_read()` on.
unfoldable pub begin_read : IoBufImp → List ℕ
begin_read b = drop b.read_index b.buff

unfoldable pub has_readed : IoBufImp → ℕ → ℤ × IoBufImp
has_readed b n =
    if ltb (readable_bytes b) n
    then (neg 1, b)
    else (pos 0, record b { read_index = add_size b.read_index n })

unfoldable pub has_readall : IoBufImp → IoBufImp
has_readall b = record b { read_index = b.write_index }

-- The flag says that `data` is not null; the list is what `memcpy` stores there.
unfoldable pub read : IoBufImp → Bool → ℕ → ℤ × List ℕ × IoBufImp
read b present n =
    if not present || n == 0
    then (neg 1, [], b)
    else if ltb (readable_bytes b) n
    then (neg 2, [], b)
    else (pos 0, take n (begin_read b), (has_readed b n).1)

-- Bytes that the owner of `begin_write()` stores there.
unfoldable pub store : IoBufImp → List ℕ → Option IoBufImp
store b bytes = do
  buff ← memcpy_in b.buff b.write_index bytes (length bytes)
  some (record b { buff = buff })

unfoldable pub writable_bytes : IoBufImp → ℕ
writable_bytes b = sub_size (length b.buff) b.write_index

unfoldable pub has_written : IoBufImp → ℕ → ℤ × IoBufImp
has_written b n =
    if ltb (writable_bytes b) n
    then (neg 1, b)
    else (pos 0, record b { write_index = add_size b.write_index n })

unfoldable pub move_readable_data : IoBufImp → Option IoBufImp
move_readable_data b = if b.read_index == 0 then some b else do
  let count = readable_bytes b
  buff ← if ltb 0 count then memcpy_within b.buff 0 b.read_index count else some b.buff
  some (record { buff = buff; read_index = 0; write_index = count })

-- `n - writable_bytes() - read_index_ + buff_.size()`
unfoldable pub new_size : IoBufImp → ℕ → ℕ
new_size b n = add_size (sub_size (sub_size n (writable_bytes b)) b.read_index) (length b.buff)

-- The least multiple of `initialSize` that is not below `size`.
unfoldable pub round_up : ℕ → ℕ
round_up size =
    let multiple = size / initial_size in
    let remain = size % initial_size in
    initial_size * (if ltb 0 remain then multiple + 1 else multiple)

unfoldable pub make_space : IoBufImp → ℕ → Option (ℤ × IoBufImp)
make_space b n =
    let size = new_size b n in
    if ltb max_size size then some (neg 1, b) else do
      b' ← move_readable_data (record b { buff = resize b.buff (round_up size) })
      some (pos 0, b')

unfoldable pub ensure_writable : IoBufImp → ℕ → Option (ℤ × IoBufImp)
ensure_writable b n =
    if ltb (add_size (writable_bytes b) b.read_index) n
    then make_space b n
    else if ltb (writable_bytes b) n
    then (do b' ← move_readable_data b; some (pos 0, b'))
    else some (pos 0, b)

-- What `write` does once the space is there.
unfoldable pub append_bytes : ℤ × IoBufImp → List ℕ → ℕ → Option (ℤ × IoBufImp)
append_bytes (ret, b) bytes n =
    if is_zero ret
    then (do
      buff ← memcpy_in b.buff b.write_index bytes n
      some (pos 0, (has_written (record b { buff = buff }) n).1))
    else some (neg 2, b)

-- `none` is the null pointer, `some bytes` the memory that `data` points to.
unfoldable pub write : IoBufImp → Option (List ℕ) → ℕ → Option (ℤ × IoBufImp)
write b none n = some (neg 1, b)
write b (some bytes) n =
    if n == 0 then some (neg 1, b) else do r ← ensure_writable b n; append_bytes r bytes n

-- `IOBufImp::swap`
unfoldable pub swap : IoBufImp → IoBufImp → IoBufImp × IoBufImp
swap b rhs = (
  record { buff = rhs.buff; read_index = rhs.read_index; write_index = rhs.write_index },
  record { buff = b.buff; read_index = b.read_index; write_index = b.write_index },
)
