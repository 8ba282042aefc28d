-- ===== src/Dispatcher/Messages.antt =====
-- The two messages of include/MsgService_data.h, `Msg_Echo` and `Msg_Notify`: their `serialize` and
-- `deserialize` in src/Dispatcher.cpp, which are the same text for both.
--
-- `msg` is the whole array of 64 bytes, also what stands behind the text's zero. `none` is undefined
-- behaviour: `strlen` of an array without a zero, a write past the buffer or past `msg`, an element
-- that is not there or has no integer, or no bytes. msgpack keeps a bin and a str in the same way.
use sdpf.Prelude.{
  ℕ, zero, suc, ◌≤◌, ◌<◌, ◌≡◌, refl, ap, Bool, true, false, Option, none, some, List, [], ◌∷◌, ◌++◌,
  length, drop, leb, if◌then◌else◌, ℤ, pos, neg, ◌>>=◌, arith,
}
use sdpf.Dispatcher.{
  MsgPack, Item, int, str, bin, map_items, to_i32, c_str, item_at, as_int, items_of, text_size,
}
use sdpf.Dispatcher.Roundtrip.{IsInt32, to_i32_lem}

pub record Msg : Type 0 where
  pub log_id : ℤ
  pub msg : List ℕ

unfoldable pub has_zero : List ℕ → Bool
has_zero [] = false
has_zero (zero ∷ xs) = true
has_zero (suc x ∷ xs) = has_zero xs

unfoldable pub bytes_of : Item → Option (List ℕ)
bytes_of (str s) = some s
bytes_of (bin s) = some s
bytes_of _ = none

-- The two elements of the array. Elements behind them are not looked at.
unfoldable pub read_message : Msg → List Item → Option (ℤ × Msg)
read_message m xs = do
  id ← item_at xs 0 >>= as_int
  s ← item_at xs 1 >>= bytes_of
  if leb (length s) text_size
      then some (pos 0, record { log_id = to_i32 id; msg = s ++ drop (length s) m.msg })
      else none

module _ (mp : MsgPack) where
  abbrev pub message_bytes : Msg → List ℕ
  message_bytes m = mp.array_head 2 ++ map_items mp.item (int m.log_id ∷ bin (c_str m.msg) ∷ [])

  -- The status and the bytes stored at `buf`, which has room for `len`.
  unfoldable pub serialize : Msg → ℕ → Option (ℤ × List ℕ)
  serialize m len =
      if has_zero m.msg
      then if leb (length (message_bytes m)) len
        then some (pos (length (message_bytes m)), message_bytes m)
        else none
      else none

  unfoldable pub deserialize : Msg → List ℕ → Option (ℤ × Msg)
  deserialize m buf = elim (mp.unpack buf) [
    | none ↦ some (neg 1, m)
    | some o ↦ elim (items_of o) [ none ↦ some (neg 2, m) | some xs ↦ read_message m xs ]
  ]

-- `Msg_Notify`
abbrev pub MsgNotify : Type 0
MsgNotify = Msg

abbrev pub notify_serialize : MsgPack → MsgNotify → ℕ → Option (ℤ × List ℕ)
notify_serialize = serialize

abbrev pub notify_deserialize : MsgPack → MsgNotify → List ℕ → Option (ℤ × MsgNotify)
notify_deserialize = deserialize

-- A text behind which the array has a zero, and what stands behind that.
c_str-append : (s t : List ℕ) → has_zero s ≡ true → c_str (c_str s ++ t) ≡ c_str s ++ c_str t
unfolding has_zero c_str
c_str-append [] t h = cc
c_str-append (zero ∷ s) t h = refl
c_str-append (suc x ∷ s) t h = ap (◌∷◌ (suc x)) (c_str-append s t h)

pub length-c_str : (s : List ℕ) → length (c_str s) ≤ length s
unfolding c_str
length-c_str [] = omega arith
length-c_str (zero ∷ s) = omega arith
length-c_str (suc x ∷ s) = omega (arith, length-c_str s)

-- The object as it is received: the bytes of the text are written over those of the array.
abbrev pub received : Msg → Msg → Msg
received m old = record {
  log_id = m.log_id;
  msg = c_str m.msg ++ drop (length (c_str m.msg)) old.msg;
}

read_lem :
    (m old : Msg)
    → IsInt32 m.log_id
    → length m.msg ≡ text_size
    → read_message old (int m.log_id ∷ bin (c_str m.msg) ∷ []) ≡ some (pos 0, received m old)
unfolding read_message item_at as_int bytes_of
read_lem m old i l =
    let fits : leb (length (c_str m.msg)) text_size ≡ true =
      ground (arith, length-c_str m.msg, l) in
    ground (arith, fits, to_i32_lem m.log_id i)

-- A message whose number has 32 bits and whose array of 64 bytes has a zero is serialized into a buffer with room for it, and
-- these bytes are deserialized with status 0 into any object: its number is the message's,
-- and its text is the message's, followed by whatever text the object's array had behind
-- that many bytes, since no terminating zero is written. With a zero there the text is the message's.
pub deserialize-serialize :
    (mp : MsgPack) (m old : Msg) (len : ℕ)
    → IsInt32 m.log_id
    → length m.msg ≡ text_size
    → has_zero m.msg ≡ true
    → length (message_bytes mp m) ≤ len
    → (serialize mp m len ≡ some (pos (length (message_bytes mp m)), message_bytes mp m))
      × (deserialize mp old (message_bytes mp m) ≡ some (pos 0, received m old))
      × (c_str (received m old).msg ≡ c_str m.msg ++ c_str (drop (length (c_str m.msg)) old.msg))
unfolding serialize deserialize items_of
deserialize-serialize mp m old len i l z room = (
  ground (arith, z, room),
  ground (arith, read_lem m old i l, mp.unpack-pack (int m.log_id ∷ bin (c_str m.msg) ∷ [])),
  c_str-append m.msg (drop (length (c_str m.msg)) old.msg) z,
)

-- An array whose text has more than 64 bytes is copied past the end of the object's array.
pub deserialize_long :
    (mp : MsgPack) (old : Msg) (id : ℤ) (s : List ℕ)
    → text_size < length s
    → deserialize mp old (mp.array_head 2 ++ map_items mp.item (int id ∷ bin s ∷ [])) ≡ none
unfolding deserialize items_of read_message item_at as_int bytes_of
deserialize_long mp old id s h = ground (arith, mp.unpack-pack (int id ∷ bin s ∷ []))
