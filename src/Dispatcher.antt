-- ===== src/Dispatcher.antt =====
-- The meta part of a message: src/Dispatcher.cpp (`serialize_meta`, `deserialize_meta`) and
-- include/Dispatcher.h.
--
-- msgpack is a library that the program links to: what the code uses of it is the record `MsgPack`.
-- `none` is undefined behaviour: a write past the buffer, an element that is not there, a union
-- member that was not stored, a text that does not fit its array.
pub mod Roundtrip
pub mod Sample
pub mod Messages
mod Tests
use sdpf.Prelude.{
  ◌&&◌, ℕ, zero, suc, ◌+◌, ◌-◌, ◌%◌, ◌^◌, ◌≡◌, ◌≢◌, Bool, true, false, Option, none, some, List, [],
  ◌∷◌, ◌++◌, length, ltb, leb, ◌==◌, if◌then◌else◌, ℤ, pos, negsuc, neg, ◌>>=◌,
}

-- `msgpack_object`, as far as the code reads it. A text is its bytes.
pub data Item : Type 0 where
  int : ℤ → Item
  str bin : List ℕ → Item
  other : Item

pub data Object : Type 0 where
  array : List Item → Object
  scalar : Item → Object

abbrev pub map_items : (Item → List ℕ) → List Item → List ℕ
map_items f [] = []
map_items f (x ∷ xs) = f x ++ map_items f xs

-- The packer's output for an array's head and for an element, and `msgpack_unpack_next`. An array
-- that was packed is unpacked as it was.
pub record MsgPack : Type 0 where
  pub array_head : ℕ → List ℕ
  pub item : Item → List ℕ
  pub unpack : List ℕ → Option Object
  pub unpack-pack :
      (xs : List Item) → unpack (array_head (length xs) ++ map_items item xs) ≡ some (array xs)
  pub head_ne_nil : (n : ℕ) → array_head n ≢ []

-- `Meta_RpcType`
abbrev pub rpctype_request : ℤ
rpctype_request = pos 1

abbrev pub rpctype_response : ℤ
rpctype_response = pos 2

abbrev pub is_request : ℤ → Bool
is_request (pos n) = n == 1
is_request (negsuc n) = false

abbrev pub is_response : ℤ → Bool
is_response (pos n) = n == 2
is_response (negsuc n) = false

-- `Meta_Rpc`. The union's two members stand side by side; the code reads the one that `type` names.
pub record MetaRpc : Type 0 where
  pub type : ℤ
  pub relation_id : ℕ
  pub service : List ℕ
  pub method : List ℕ
  pub code : ℤ
  pub text : List ℕ

-- After `memset`, with the type of the header.
unfoldable pub blank : ℤ → MetaRpc
blank t = record { type = t; relation_id = 0; service = []; method = []; code = pos 0; text = [] }

-- The elements that are packed, for the two types that there are.
unfoldable pub meta_items : MetaRpc → Option (List Item)
meta_items m =
    if is_request m.type
    then some (int m.type ∷ int (pos m.relation_id) ∷ str m.service ∷ str m.method ∷ [])
    else if is_response m.type
    then some (int m.type ∷ int (pos m.relation_id) ∷ int m.code ∷ str m.text ∷ [])
    else none

-- A 64-bit integer stored in a `uint32_t` and in an `int32_t`.
unfoldable pub to_u32 : ℤ → ℕ
to_u32 (pos n) = n % 2 ^ 32
to_u32 (negsuc n) = 2 ^ 32 - 1 - n % 2 ^ 32

unfoldable pub to_i32 : ℤ → ℤ
to_i32 z = let u = to_u32 z in if ltb u (2 ^ 31) then pos u else negsuc (2 ^ 32 - 1 - u)

-- The text up to its first zero byte.
unfoldable pub c_str : List ℕ → List ℕ
c_str [] = []
c_str (zero ∷ xs) = []
c_str (suc x ∷ xs) = suc x ∷ c_str xs

unfoldable pub item_at : List Item → ℕ → Option Item
item_at [] i = none
item_at (x ∷ xs) zero = some x
item_at (x ∷ xs) (suc i) = item_at xs i

unfoldable pub as_int : Item → Option ℤ
as_int (int z) = some z
as_int _ = none

abbrev pub text_size : ℕ
text_size = 64

-- `strncpy(field, ptr, size)` into a field of 64 zero bytes, which stores `size` bytes. With more than
-- 64 it runs past the field, and with 64 of which none is zero it leaves no terminating zero.
unfoldable pub as_text : Item → Option (List ℕ)
as_text (str s) =
    if leb (length s) text_size && ltb (length (c_str s)) text_size then some (c_str s) else none
as_text _ = none

unfoldable pub items_of : Object → Option (List Item)
items_of (array xs) = some xs
items_of (scalar x) = none

unfoldable pub read_request : MetaRpc → List Item → Option (ℤ × MetaRpc)
read_request m xs = do
  s ← item_at xs 2 >>= as_text
  t ← item_at xs 3 >>= as_text
  some (pos 0, record m { service = s; method = t })

unfoldable pub read_response : MetaRpc → List Item → Option (ℤ × MetaRpc)
read_response m xs = do
  c ← item_at xs 2 >>= as_int
  t ← item_at xs 3 >>= as_text
  some (pos 0, record m { code = to_i32 c; text = t })

-- The type is cast to an enumeration without negative values, of 32 bits.
unfoldable pub read_meta : MetaRpc → List Item → Option (ℤ × MetaRpc)
read_meta meta xs = do
  cast ← item_at xs 0 >>= as_int
  id ← item_at xs 1 >>= as_int
  let t : ℤ = pos (to_u32 cast)
  let m : MetaRpc = record meta { type = t; relation_id = to_u32 id }
  if is_request t
      then read_request m xs
      else if is_response t
      then read_response m xs
      else some (neg 2, m)

module _ (mp : MsgPack) where
  -- The status and the bytes stored at `buf`, which has room for `len`.
  unfoldable pub serialize_meta : MetaRpc → ℕ → Option (ℤ × List ℕ)
  serialize_meta m len = elim (meta_items m) [
    | none ↦ some (neg 1, [])
    | some xs ↦
        let bytes = mp.array_head (length xs) ++ map_items mp.item xs in
        if leb (length bytes) len then some (pos (length bytes), bytes) else none
  ]

  unfoldable pub deserialize_meta : MetaRpc → List ℕ → Option (ℤ × MetaRpc)
  deserialize_meta meta buf = elim (mp.unpack buf) [
    | none ↦ some (neg 1, meta)
    | some o ↦ items_of o >>= read_meta meta
  ]
