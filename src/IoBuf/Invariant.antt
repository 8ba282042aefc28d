-- ===== src/IoBuf/Invariant.antt =====
-- The representation invariant of the buffer and the bytes that it holds.
use sdpf.Prelude.{
  ℕ, ◌-◌, ◌^◌, ◌≤◌, ◌<◌, ◌≡◌, List, [], length, take, drop, arith, length-replicate, length-take,
  length-drop,
}
use sdpf.IoBuf.{
  IoBufImp, create, readable_bytes, writable_bytes, has_readed, has_readall, has_written,
}

-- The vector stays below the limit that `std::vector<char>` has.
abbrev pub vector_limit : ℕ
vector_limit = 2 ^ 63

pub record IsValid (b : IoBufImp) : Type 0 where
  pub ordered : b.read_index ≤ b.write_index
  pub within : b.write_index ≤ length b.buff
  pub small : length b.buff < vector_limit

-- The bytes that are written and not read yet, oldest first.
abbrev pub contents : IoBufImp → List ℕ
contents b = take (b.write_index - b.read_index) (drop b.read_index b.buff)

pub create-IsValid : (n : ℕ) → n < vector_limit → IsValid (create n)
unfolding create
create-IsValid n h = omega (arith, length-replicate {A = ℕ} n 0)

-- No subtraction of the getters wraps.
pub readable_lem : {b : IoBufImp} → IsValid b → readable_bytes b ≡ b.write_index - b.read_index
unfolding readable_bytes
readable_lem v = omega arith

pub writable_lem : {b : IoBufImp} → IsValid b → writable_bytes b ≡ length b.buff - b.write_index
unfolding writable_bytes
writable_lem v = omega arith

pub length-contents : {b : IoBufImp} → IsValid b → length (contents b) ≡ readable_bytes b
unfolding readable_bytes
length-contents {b} v = omega (
  arith,
  length-take (b.write_index - b.read_index) (drop b.read_index b.buff),
  length-drop b.read_index b.buff,
)

pub has_readed-IsValid : {b : IoBufImp} (n : ℕ) → IsValid b → IsValid (has_readed b n).1
unfolding has_readed readable_bytes
has_readed-IsValid n v = ground arith

pub has_readall-IsValid : {b : IoBufImp} → IsValid b → IsValid (has_readall b)
unfolding has_readall
has_readall-IsValid v = ground arith

pub has_written-IsValid : {b : IoBufImp} (n : ℕ) → IsValid b → IsValid (has_written b n).1
unfolding has_written writable_bytes
has_written-IsValid n v = ground arith

pub contents-has_readall : (b : IoBufImp) → contents (has_readall b) ≡ []
unfolding has_readall
contents-has_readall b = let e : b.write_index - b.write_index ≡ 0 = omega arith in rw e
