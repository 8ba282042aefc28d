-- ===== src/IoBuf/Space.antt =====
-- Making room: `make_space` and `ensure_writable`.
use native.Mathlib.Decide.{dec_lt}
use sdpf.Prelude.{
  ℕ, ◌+◌, ◌-◌, ◌%◌, ◌^◌, ◌≤◌, ◌<◌, ◌≡◌, refl, ◌∙◌, ◌⊎◌, some, List, length, take, replicate, arith,
  pos, neg, length-replicate, length-take, length-append, take_all, take-drop-append, le→ltb, ◌>>=◌,
}
use sdpf.IoBuf.{
  IoBufImp, max_size, initial_size, writable_bytes, move_readable_data, resize, new_size, round_up,
  make_space, ensure_writable,
}
use sdpf.IoBuf.Invariant.{IsValid, contents, writable_lem, vector_limit}
use sdpf.IoBuf.Compact.{IsCompactable, move-Moved, Moved-IsValid}

-- The size that `make_space` asks for, wrapped at 2 ^ 64.
pub new_size_lem :
    {b : IoBufImp} (n : ℕ)
    → IsValid b
    → new_size b n ≡ (n + (b.write_index - b.read_index)) % 2 ^ 64
unfolding new_size writable_bytes
new_size_lem n v = omega arith

pub round_up_bounds : (n : ℕ) → (n ≤ round_up n) × (round_up n < n + initial_size)
unfolding round_up
round_up_bounds n = ground arith

-- Growing keeps what is stored.
pub resize-IsValid :
    {b : IoBufImp} (n : ℕ)
    → IsValid b
    → length b.buff ≤ n
    → n < vector_limit
    → IsValid (record b { buff = resize b.buff n })
unfolding resize
resize-IsValid {b} n v h k = omega (
  arith,
  length-append (take n b.buff) (replicate (n - length b.buff) 0),
  length-take n b.buff,
  length-replicate {A = ℕ} (n - length b.buff) 0,
)

pub length-resize : (xs : List ℕ) (n : ℕ) → length (resize xs n) ≡ n
unfolding resize
length-resize xs n = omega (
  arith,
  length-append (take n xs) (replicate (n - length xs) 0),
  length-take n xs,
  length-replicate {A = ℕ} (n - length xs) 0,
)

pub contents-resize :
    {b : IoBufImp} (n : ℕ)
    → IsValid b
    → length b.buff ≤ n
    → contents (record b { buff = resize b.buff n }) ≡ contents b
unfolding resize
contents-resize {b} n v h = rw (take_all n b.buff h) (
    take-drop-append (b.write_index - b.read_index) b.read_index b.buff
      (replicate (n - length b.buff) 0) (omega arith))

-- What a successful call promises: the same bytes, and room for `n` more.
pub record Granted (b b' : IoBufImp) (n : ℕ) : Type 0 where
  pub valid : IsValid b'
  pub same : contents b' ≡ contents b
  pub room : n ≤ length b'.buff - b'.write_index

make_space-Granted :
    (b : IoBufImp) (n : ℕ)
    → IsValid b
    → IsCompactable b
    → length b.buff < n + (b.write_index - b.read_index)
    → n + (b.write_index - b.read_index) ≤ max_size
    → (b' : IoBufImp) × (make_space b n ≡ some (pos 0, b')) × Granted b b' n
unfolding make_space
make_space-Granted b n v c h k =
    let (b', e, m) = move-Moved grown valid c in
    (
      b',
      rw (size, le→ltb max_size _ k, e),
      record {
        valid = Moved-IsValid valid m;
        same =
            m.same ∙ contents-resize (round_up size_of) v (omega (arith, round_up_bounds size_of));
        room = omega (
          arith,
          m.room,
          m.count,
          length-resize b.buff (round_up size_of),
          round_up_bounds size_of,
        );
      },
    )
  where
    size_of : ℕ
    size_of = n + (b.write_index - b.read_index)

    size : new_size b n ≡ size_of
    size = omega (arith, new_size_lem n v)

    grown : IoBufImp
    grown = record b { buff = resize b.buff (round_up size_of) }

    valid : IsValid grown
    valid =
        resize-IsValid (round_up size_of) v (omega (arith, round_up_bounds size_of))
          (omega (arith, round_up_bounds size_of))

-- The room for `n` bytes behind the stored ones: what the vector holds, or may grow to.
abbrev pub Fits : IoBufImp → ℕ → Type 0
Fits b n =
    (n + (b.write_index - b.read_index) ≤ length b.buff)
    ⊎ (n + (b.write_index - b.read_index) ≤ max_size)

-- The three ways through `ensure_writable`.
pub ensure_grows :
    {b : IoBufImp} (n : ℕ)
    → IsValid b
    → length b.buff < n + (b.write_index - b.read_index)
    → ensure_writable b n ≡ make_space b n
unfolding ensure_writable
ensure_grows n v h = rw (writable_lem v) (ground arith)

pub ensure_compacts :
    {b : IoBufImp} (n : ℕ)
    → IsValid b
    → n + (b.write_index - b.read_index) ≤ length b.buff
    → length b.buff - b.write_index < n
    → ensure_writable b n ≡ (move_readable_data b >>= λ b'. some (pos 0, b'))
unfolding ensure_writable
ensure_compacts n v h k = rw (writable_lem v) (ground arith)

pub ensure_keeps :
    {b : IoBufImp} (n : ℕ)
    → IsValid b
    → n ≤ length b.buff - b.write_index
    → ensure_writable b n ≡ some (pos 0, b)
unfolding ensure_writable
ensure_keeps n v k = rw (writable_lem v) (ground arith)

-- The call copies nothing, or between disjoint ranges.
abbrev pub IsSafe : IoBufImp → ℕ → Type 0
IsSafe b n = IsCompactable b ⊎ (n ≤ length b.buff - b.write_index)

-- Where the vector holds `n` more bytes or may grow to hold them, and a compaction copies between
-- disjoint ranges, `ensure_writable` returns 0, keeps the stored bytes and the invariant, and
-- leaves room for `n` bytes behind them.
pub ensure_writable_grants :
    (b : IoBufImp) (n : ℕ)
    → IsValid b
    → IsSafe b n
    → Fits b n
    → (b' : IoBufImp) × (ensure_writable b n ≡ some (pos 0, b')) × Granted b b' n
ensure_writable_grants b n v c f = elim (dec_lt (length b.buff - b.write_index) n) [
  | yes q ↦ elim (dec_lt (length b.buff) (n + (b.write_index - b.read_index))) [
    | yes p ↦
        let (b', e, g) = make_space-Granted b n v (compactable q) p (omega arith) in
        (b', ensure_grows n v p ∙ e, g)
    | no p ↦
        let (b', e, m) = move-Moved b v (compactable q) in
        (
          b',
          ensure_compacts n v (omega arith) q ∙ rw e,
          record {
            valid = Moved-IsValid v m;
            same = m.same;
            room = omega (arith, m.room, m.count);
          },
        )
  ]
  | no q ↦
      (b, ensure_keeps n v (omega arith), record { valid = v; same = refl; room = omega arith })
]
  where
    compactable : length b.buff - b.write_index < n → IsCompactable b
    compactable q = omega arith

-- A request that would not wrap and that needs more than `_Max_Size` bytes, and more than the
-- vector has, is refused with -1 and changes nothing.
pub ensure_writable_refuses :
    (b : IoBufImp) (n : ℕ)
    → IsValid b
    → length b.buff < n + (b.write_index - b.read_index)
    → max_size < n + (b.write_index - b.read_index)
    → n + (b.write_index - b.read_index) < 2 ^ 64
    → ensure_writable b n ≡ some (neg 1, b)
unfolding make_space
ensure_writable_refuses b n v h k small = ensure_grows n v h ∙ rw (new_size_lem n v) (ground arith)
