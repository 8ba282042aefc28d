-- ===== src/IoBuf/Stream.antt =====
-- The buffer as a stream of bytes: what `write` and `read` do to the bytes it holds.
use sdpf.Prelude.{
  ℕ, ◌+◌, ◌-◌, ◌^◌, ◌≤◌, ◌<◌, ◌≡◌, refl, sym, ap, ◌∙◌, ◌≢◌, true, none, some, List, [], ◌++◌,
  length, take, drop, overwrite, arith, pos, neg, length-take, length-drop, length-overwrite,
  take-overwrite, drop-overwrite, drop-drop, take-take, drop-take, lt→==_false, le→ltb,
}
use sdpf.IoBuf.{
  IoBufImp, max_size, memcpy_in, has_written, has_readed, read, begin_read, append_bytes, write,
}
use sdpf.IoBuf.Invariant.{IsValid, contents, readable_lem, writable_lem, length-contents}
use sdpf.IoBuf.Space.{Fits, IsSafe, Granted, ensure_writable_grants, ensure_writable_refuses}
use sdpf.IoBuf.Overflow.{ensure_writable_overlaps}

pub has_written_lem :
    {b : IoBufImp} (n : ℕ)
    → IsValid b
    → n ≤ length b.buff - b.write_index
    → has_written b n ≡ (pos 0, record b { write_index = b.write_index + n })
unfolding has_written
has_written_lem n v h = rw (writable_lem v) (ground arith)

-- Bytes stored at `begin_write()` follow those that the buffer holds, once they are counted.
pub contents-store :
    (b : IoBufImp) (ys : List ℕ)
    → IsValid b
    → length ys ≤ length b.buff - b.write_index
    → contents (record b {
      buff = overwrite b.buff b.write_index ys;
      write_index = b.write_index + length ys;
    })
      ≡ contents b ++ ys
contents-store b ys v h =
    rw (total, at, drop-overwrite b.read_index held b.buff ys)
      (take-overwrite (drop b.read_index b.buff) held ys
        (omega (arith, length-drop b.read_index b.buff)))
  where
    held : ℕ
    held = b.write_index - b.read_index

    total : b.write_index + length ys - b.read_index ≡ held + length ys
    total = omega arith

    at : overwrite b.buff b.write_index ys ≡ overwrite b.buff (b.read_index + held) ys
    at = ap (λ i. overwrite b.buff i ys) (omega arith)

pub memcpy_in_lem :
    (xs : List ℕ) (i : ℕ) (ys : List ℕ) (n : ℕ)
    → i + n ≤ length xs
    → n ≤ length ys
    → memcpy_in xs i ys n ≡ some (overwrite xs i (take n ys))
unfolding memcpy_in
memcpy_in_lem xs i ys n h k = ground arith

-- The buffer after `n` bytes have been appended to it.
pub record Appended (b b' : IoBufImp) (ys : List ℕ) : Type 0 where
  pub valid : IsValid b'
  pub held : contents b' ≡ contents b ++ ys

append_bytes-Appended :
    (b b' : IoBufImp) (ys : List ℕ) (n : ℕ)
    → Granted b b' n
    → n ≤ length ys
    → (r : IoBufImp) × (append_bytes (pos 0, b') ys n ≡ some (pos 0, r)) × Appended b r (take n ys)
unfolding append_bytes
append_bytes-Appended b b' ys n g h = (
  record b' { buff = stored; write_index = b'.write_index + n },
  rw (
    memcpy_in_lem b'.buff b'.write_index ys n (omega (arith, g.valid, g.room)) h,
    has_written_lem n valid
        (omega (arith, g.room, length-overwrite b'.buff b'.write_index (take n ys))),
  ),
  record {
    valid = omega (arith, g.valid, g.room, length-overwrite b'.buff b'.write_index (take n ys));
    held =
        ap (λ k. contents (record b' { buff = stored; write_index = b'.write_index + k }))
          (sym count)
        ∙ contents-store b' (take n ys) g.valid (omega (arith, g.room, count))
        ∙ ap (λ xs. xs ++ take n ys) g.same;
  },
)
  where
    stored : List ℕ
    stored = overwrite b'.buff b'.write_index (take n ys)

    count : length (take n ys) ≡ n
    count = omega (arith, length-take n ys)

    valid : IsValid (record b' { buff = stored })
    valid = omega (arith, g.valid, length-overwrite b'.buff b'.write_index (take n ys))

-- `write` of at least one byte that fits, where no compaction overlaps, returns 0 and appends
-- exactly the `n` bytes to those that the buffer holds.
pub write_appends :
    (b : IoBufImp) (bytes : List ℕ) (n : ℕ)
    → IsValid b
    → IsSafe b n
    → Fits b n
    → 0 < n
    → n ≤ length bytes
    → (b' : IoBufImp) × (write b (some bytes) n ≡ some (pos 0, b')) × Appended b b' (take n bytes)
unfolding write
write_appends b bytes n v safe f p h =
    let (b', e, g) = ensure_writable_grants b n v safe f in
    let (r, e', a) = append_bytes-Appended b b' bytes n g h in (r, rw (e) (ground (arith, e')), a)

-- A `write` that would need more than `_Max_Size` bytes, and more than the vector has, returns -2
-- and leaves the buffer as it was.
pub write_refuses :
    (b : IoBufImp) (bytes : List ℕ) (n : ℕ)
    → IsValid b
    → length b.buff < n + (b.write_index - b.read_index)
    → max_size < n + (b.write_index - b.read_index)
    → n + (b.write_index - b.read_index) < 2 ^ 64
    → write b (some bytes) n ≡ some (neg 2, b)
unfolding write append_bytes
write_refuses b bytes n v h k small = rw (ensure_writable_refuses b n v h k small) (ground arith)

-- Moving the read index on drops the oldest bytes.
contents-advance :
    (b : IoBufImp) (n : ℕ)
    → n ≤ b.write_index - b.read_index
    → contents (record b { read_index = b.read_index + n }) ≡ drop n (contents b)
contents-advance b n h =
    let split : b.write_index - b.read_index ≡ n + (b.write_index - (b.read_index + n)) =
      omega arith in
    rw (split, drop-take, drop-drop)

has_readed_lem :
    {b : IoBufImp} (n : ℕ)
    → IsValid b
    → n ≤ b.write_index - b.read_index
    → has_readed b n ≡ (pos 0, record b { read_index = b.read_index + n })
unfolding has_readed
has_readed_lem n v h = rw (readable_lem v) (ground arith)

-- `has_readed` of at most as many bytes as there are returns 0 and drops the oldest `n`.
pub has_readed_drops :
    (b : IoBufImp) (n : ℕ)
    → IsValid b
    → n ≤ length (contents b)
    → ((has_readed b n).0 ≡ pos 0)
      × (contents (has_readed b n).1 ≡ drop n (contents b))
      × IsValid (has_readed b n).1
has_readed_drops b n v h =
    let enough : n ≤ b.write_index - b.read_index =
      omega (arith, length-contents v, readable_lem v) in
    rw (has_readed_lem n v enough) (refl, contents-advance b n enough, omega (arith, enough))

-- `read` of `n` bytes, where there are as many, hands out the oldest `n` and keeps the others.
pub read_takes :
    (b : IoBufImp) (n : ℕ)
    → IsValid b
    → 0 < n
    → n ≤ length (contents b)
    → (b' : IoBufImp) × (read b true n ≡ (pos 0, take n (contents b), b'))
      × IsValid b'
      × (contents b' ≡ drop n (contents b))
unfolding read begin_read
read_takes b n v p h = (
  record b { read_index = b.read_index + n },
  rw (readable_lem v, has_readed_lem n v enough)
      (rw (lt→==_false n p) (
        rw (
          le→ltb _ n enough,
          take-take n (b.write_index - b.read_index) (drop b.read_index b.buff) enough,
        ))),
  omega (arith, enough),
  contents-advance b n enough,
)
  where
    enough : n ≤ b.write_index - b.read_index
    enough = omega (arith, length-contents v, readable_lem v)

-- `read` of no bytes returns -1, of more than there are -2; either way nothing is taken.
pub read_refuses :
    (b : IoBufImp) (n : ℕ) → IsValid b → length (contents b) < n → read b true n ≡ (neg 2, [], b)
unfolding read
read_refuses b n v h = ground (arith, readable_lem v, length-contents v)

pub read_nothing : (b : IoBufImp) → read b true 0 ≡ (neg 1, [], b)
unfolding read
read_nothing b = refl

-- A `write` that must move the unread bytes, where these are more than the free ones in front of
-- them, calls `memcpy` on overlapping ranges.
pub write_overlaps :
    (b : IoBufImp) (bytes : List ℕ) (n : ℕ)
    → IsValid b
    → b.read_index ≢ 0
    → b.read_index + b.read_index < b.write_index
    → length b.buff - b.write_index < n
    → Fits b n
    → write b (some bytes) n ≡ none
unfolding write
write_overlaps b bytes n v c d h f = rw (ensure_writable_overlaps b n v c d h f) (ground arith)

pub write_nothing : (b : IoBufImp) (bytes : List ℕ) → write b (some bytes) 0 ≡ some (neg 1, b)
unfolding write
write_nothing b bytes = refl
