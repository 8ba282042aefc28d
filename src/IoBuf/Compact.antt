-- ===== src/IoBuf/Compact.antt =====
-- `move_readable_data`: moving the unread bytes to the front of the vector.
use native.Mathlib.Decide.{dec_lt, ℕ_discrete}
use sdpf.Prelude.{
  ℕ, ◌+◌, ◌-◌, ◌≤◌, ◌<◌, ◌≡◌, refl, ◌≢◌, ◌⊎◌, none, some, List, length, take, drop, overwrite,
  arith, length-take, length-drop, length-overwrite, take-overwrite,
}
use sdpf.IoBuf.{IoBufImp, memcpy_within, move_readable_data}
use sdpf.IoBuf.Invariant.{IsValid, contents, readable_lem}

-- The ranges of the compaction are disjoint, or there is nothing to move.
abbrev pub IsCompactable : IoBufImp → Type 0
IsCompactable b = (b.read_index ≡ 0) ⊎ (b.write_index ≤ b.read_index + b.read_index)

-- The bytes stand at the front of `b'`, and the vector has kept its length.
pub record Moved (b b' : IoBufImp) : Type 0 where
  pub front : b'.read_index ≡ 0
  pub count : b'.write_index ≡ b.write_index - b.read_index
  pub room : length b'.buff ≡ length b.buff
  pub same : contents b' ≡ contents b

memcpy_within_lem :
    (xs : List ℕ) (src n : ℕ)
    → src + n ≤ length xs
    → n ≤ src
    → memcpy_within xs 0 src n ≡ some (overwrite xs 0 (take n (drop src xs)))
unfolding memcpy_within
memcpy_within_lem xs src n h k = ground arith

front_of_copy :
    (xs : List ℕ) (src n : ℕ)
    → src + n ≤ length xs
    → take (n - 0) (drop 0 (overwrite xs 0 (take n (drop src xs)))) ≡ take n (drop src xs)
front_of_copy xs src n h = rw (← e) (take-overwrite xs 0 (take n (drop src xs)) bound)
  where
    bound : 0 + length (take n (drop src xs)) ≤ length xs
    bound = omega (arith, length-take n (drop src xs), length-drop src xs)

    e : 0 + length (take n (drop src xs)) ≡ n - 0
    e = omega (arith, length-take n (drop src xs), length-drop src xs)

-- The three ways through `move_readable_data`.
pub move_unchanged : (b : IoBufImp) → b.read_index ≡ 0 → move_readable_data b ≡ some b
unfolding move_readable_data
move_unchanged b e = ground arith

move_empty :
    (b : IoBufImp)
    → IsValid b
    → b.read_index ≢ 0
    → b.write_index ≡ b.read_index
    → move_readable_data b ≡ some (record b { read_index = 0; write_index = 0 })
unfolding move_readable_data
move_empty b v p q = ground (arith, readable_lem v)

move_block :
    (b : IoBufImp)
    → IsValid b
    → b.read_index < b.write_index
    → b.write_index ≤ b.read_index + b.read_index
    → move_readable_data b
      ≡ some (record {
        buff = overwrite b.buff 0 (contents b);
        read_index = 0;
        write_index = b.write_index - b.read_index;
      })
unfolding move_readable_data
move_block b v p q = rw (readable_lem v) (
    ground (
      arith,
      memcpy_within_lem b.buff b.read_index (b.write_index - b.read_index) (omega arith)
          (omega arith),
    ))

pub move-Moved :
    (b : IoBufImp)
    → IsValid b
    → IsCompactable b
    → (b' : IoBufImp) × (move_readable_data b ≡ some b') × Moved b b'
move-Moved b v c = elim (ℕ_discrete b.read_index 0) [
  | yes z ↦
      (b, move_unchanged b z, record { front = z; count = omega arith; room = refl; same = refl })
  | no nz ↦ elim (dec_lt b.read_index b.write_index) [
    | yes p ↦ (
      record {
        buff = overwrite b.buff 0 (contents b);
        read_index = 0;
        write_index = b.write_index - b.read_index;
      },
      move_block b v p (omega arith),
      record {
        front = refl;
        count = refl;
        room = length-overwrite b.buff 0 (contents b);
        same = front_of_copy b.buff b.read_index (b.write_index - b.read_index) (omega arith);
      },
    )
    | no q ↦ (
      record b { read_index = 0; write_index = 0 },
      move_empty b v nz (omega arith),
      record {
        front = refl;
        count = omega arith;
        room = refl;
        same = let e : b.write_index - b.read_index ≡ 0 = omega arith in rw e;
      },
    )
  ]
]

pub Moved-IsValid : {b b' : IoBufImp} → IsValid b → Moved b b' → IsValid b'
Moved-IsValid v m = record { ordered = omega arith; within = omega arith; small = omega arith }

-- Compaction that moves bytes onto themselves is undefined.
pub move_overlaps :
    (b : IoBufImp)
    → IsValid b
    → b.read_index ≢ 0
    → b.read_index + b.read_index < b.write_index
    → move_readable_data b ≡ none
unfolding move_readable_data memcpy_within
move_overlaps b v p q = rw (readable_lem v) (ground arith)
