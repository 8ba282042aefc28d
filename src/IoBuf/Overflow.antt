-- ===== src/IoBuf/Overflow.antt =====
-- Where `ensure_writable` does not make room: overlapping copies, and a size that wraps.
use native.Mathlib.Decide.{dec_lt}
use sdpf.Prelude.{ℕ, ◌+◌, ◌-◌, ◌^◌, ◌≤◌, ◌<◌, ◌≡◌, ◌∙◌, ◌≢◌, none, some, length, arith, pos, le→ltb}
use sdpf.IoBuf.{IoBufImp, max_size, resize, new_size, round_up, make_space, ensure_writable}
use sdpf.IoBuf.Invariant.{IsValid}
use sdpf.IoBuf.Compact.{move_overlaps, move_unchanged}
use sdpf.IoBuf.Space.{
  new_size_lem, round_up_bounds, resize-IsValid, length-resize, Fits, ensure_grows, ensure_compacts,
}

make_space_overlaps :
    (b : IoBufImp) (n : ℕ)
    → IsValid b
    → b.read_index ≢ 0
    → b.read_index + b.read_index < b.write_index
    → length b.buff < n + (b.write_index - b.read_index)
    → n + (b.write_index - b.read_index) ≤ max_size
    → make_space b n ≡ none
unfolding make_space
make_space_overlaps b n v c d h k = rw (
  size,
  le→ltb max_size _ k,
  move_overlaps (record b { buff = resize b.buff (round_up size_of) }) valid c d,
)
  where
    size_of : ℕ
    size_of = n + (b.write_index - b.read_index)

    size : new_size b n ≡ size_of
    size = omega (arith, new_size_lem n v)

    valid : IsValid (record b { buff = resize b.buff (round_up size_of) })
    valid =
        resize-IsValid (round_up size_of) v (omega (arith, round_up_bounds size_of))
          (omega (arith, round_up_bounds size_of))

-- Whenever the bytes must be moved to make room for `n` more, and the unread bytes are more than
-- the free ones in front of them, `memcpy` is called on overlapping ranges.
pub ensure_writable_overlaps :
    (b : IoBufImp) (n : ℕ)
    → IsValid b
    → b.read_index ≢ 0
    → b.read_index + b.read_index < b.write_index
    → length b.buff - b.write_index < n
    → Fits b n
    → ensure_writable b n ≡ none
ensure_writable_overlaps b n v c d h f =
    elim (dec_lt (length b.buff) (n + (b.write_index - b.read_index))) [
      | yes p ↦ ensure_grows n v p ∙ make_space_overlaps b n v c d p (omega arith)
      | no p ↦ ensure_compacts n v (omega arith) (omega arith) ∙ rw (move_overlaps b v c d)
    ]

-- A request so large that `n - writable_bytes() - read_index_ + buff_.size()` wraps round to at
-- most `_Max_Size` is answered with 0, though the buffer has no room for `n` bytes. (The unread
-- bytes stand at the front.)
pub ensure_writable_wraps :
    (b : IoBufImp) (n : ℕ)
    → IsValid b
    → b.read_index ≡ 0
    → n < 2 ^ 64
    → 2 ^ 64 ≤ n + b.write_index
    → n + b.write_index ≤ 2 ^ 64 + max_size
    → (b' : IoBufImp) × (ensure_writable b n ≡ some (pos 0, b')) × (length b'.buff < n)
unfolding make_space
ensure_writable_wraps b n v z h lo hi = (
  cut,
  ensure_grows n v (omega arith)
      ∙ rw (size, le→ltb max_size wrapped (omega arith), move_unchanged cut z),
  omega (arith, length-resize b.buff (round_up wrapped), round_up_bounds wrapped),
)
  where
    wrapped : ℕ
    wrapped = n + b.write_index - 2 ^ 64

    size : new_size b n ≡ wrapped
    size = omega (arith, new_size_lem n v)

    cut : IoBufImp
    cut = record b { buff = resize b.buff (round_up wrapped) }
