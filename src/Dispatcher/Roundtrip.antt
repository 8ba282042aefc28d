-- ===== src/Dispatcher/Roundtrip.antt =====
-- What was packed is unpacked.
use sdpf.Prelude.{
  ℕ, zero, suc, ◌^◌, ◌≤◌, ◌<◌, ◌≡◌, refl, ap, ◌≢◌, ◌⊎◌, inl, inr, none, some, List, [], ◌∷◌, ◌++◌,
  length, arith, ℤ, pos, negsuc,
}
use sdpf.Dispatcher.{
  Item, int, str, MsgPack, MetaRpc, blank, meta_items, serialize_meta, deserialize_meta, map_items,
  to_u32, to_i32, c_str, item_at, as_int, as_text, items_of, read_meta, read_request, read_response,
  rpctype_request, rpctype_response, text_size,
}

-- No byte of the text is zero.
abbrev pub IsCString : List ℕ → Type 0
IsCString [] = Unit {0}
IsCString (x ∷ xs) = (0 < x) × IsCString xs

pub c_str_lem : (s : List ℕ) → IsCString s → c_str s ≡ s
unfolding c_str
c_str_lem [] h = refl
c_str_lem (zero ∷ xs) h = absurd (omega arith)
c_str_lem (suc x ∷ xs) h = ap (◌∷◌ (suc x)) (c_str_lem xs h.1)

-- A text that the fixed arrays hold with their terminating zero.
pub record IsText (s : List ℕ) : Type 0 where
  pub plain : IsCString s
  pub short : length s < text_size

abbrev pub IsInt32 : ℤ → Type 0
IsInt32 (pos n) = n < 2 ^ 31
IsInt32 (negsuc n) = n < 2 ^ 31

pub to_i32_lem : (z : ℤ) → IsInt32 z → to_i32 z ≡ z
unfolding to_i32 to_u32
to_i32_lem (pos n) h = ground arith
to_i32_lem (negsuc n) h = ground arith

as_text_lem : (s : List ℕ) → IsText s → as_text (str s) ≡ some s
unfolding as_text
as_text_lem s h = ground (arith, c_str_lem s h.plain, h.short)

-- A request or a response that the fields can hold; the other member of the union is blank.
pub record IsRequest (m : MetaRpc) : Type 0 where
  pub kind : m.type ≡ rpctype_request
  pub id : m.relation_id < 2 ^ 32
  pub service : IsText m.service
  pub method : IsText m.method
  pub no_code : m.code ≡ pos 0
  pub no_text : m.text ≡ []

pub record IsResponse (m : MetaRpc) : Type 0 where
  pub kind : m.type ≡ rpctype_response
  pub id : m.relation_id < 2 ^ 32
  pub code : IsInt32 m.code
  pub text : IsText m.text
  pub no_service : m.service ≡ []
  pub no_method : m.method ≡ []

read_request_items :
    (m : MetaRpc) (t : ℤ)
    → IsRequest m
    → read_meta (blank t) (int m.type ∷ int (pos m.relation_id) ∷ str m.service ∷ str m.method ∷ [])
      ≡ some (pos 0, m)
unfolding read_meta read_request blank item_at as_int to_u32
read_request_items m t h = ground (
  arith,
  h.kind,
  h.id,
  h.no_code,
  h.no_text,
  as_text_lem m.service h.service,
  as_text_lem m.method h.method,
)

read_response_items :
    (m : MetaRpc) (t : ℤ)
    → IsResponse m
    → read_meta (blank t) (int m.type ∷ int (pos m.relation_id) ∷ int m.code ∷ str m.text ∷ [])
      ≡ some (pos 0, m)
unfolding read_meta read_response blank item_at as_int to_u32
read_response_items m t h = ground (
  arith,
  h.kind,
  h.id,
  h.no_service,
  h.no_method,
  to_i32_lem m.code h.code,
  as_text_lem m.text h.text,
)

-- Every meta that the channel sends is of one of the two kinds.
abbrev pub IsMeta : MetaRpc → Type 0
IsMeta m = IsRequest m ⊎ IsResponse m

items_lem :
    (m : MetaRpc) (t : ℤ)
    → IsMeta m
    → (xs : List Item) × (meta_items m ≡ some xs) × (read_meta (blank t) xs ≡ some (pos 0, m))
unfolding meta_items
items_lem m t (inl h) = (
  int m.type ∷ int (pos m.relation_id) ∷ str m.service ∷ str m.method ∷ [],
  rw h.kind,
  read_request_items m t h,
)
items_lem m t (inr h) = (
  int m.type ∷ int (pos m.relation_id) ∷ int m.code ∷ str m.text ∷ [],
  rw h.kind,
  read_response_items m t h,
)

length_pos : (xs ys : List ℕ) → xs ≢ [] → 0 < length (xs ++ ys)
length_pos [] ys h = absurd (h refl)
length_pos (x ∷ xs) ys h = omega arith

module _ (mp : MsgPack) where
  abbrev packed : List Item → List ℕ
  packed xs = mp.array_head (length xs) ++ map_items mp.item xs

  packed_pos : (xs : List Item) → 0 < length (packed xs)
  packed_pos xs =
      length_pos (mp.array_head (length xs)) (map_items mp.item xs) (mp.head_ne_nil (length xs))

  -- The bytes that `serialize_meta` stores for `m`.
  unfoldable pub meta_bytes : MetaRpc → List ℕ
  meta_bytes m = elim (meta_items m) [ none ↦ [] | some xs ↦ packed xs ]

  -- A request or a response is stored in at least one byte, if the buffer has room for its bytes,
  -- and `deserialize_meta` gives it back, whatever type the header named.
  pub serialize-deserialize :
      (m : MetaRpc) (t : ℤ) (len : ℕ)
      → IsMeta m
      → length (meta_bytes m) ≤ len
      → (serialize_meta mp m len ≡ some (pos (length (meta_bytes m)), meta_bytes m))
        × (0 < length (meta_bytes m))
        × (deserialize_meta mp (blank t) (meta_bytes m) ≡ some (pos 0, m))
  unfolding serialize_meta deserialize_meta meta_bytes items_of
  serialize-deserialize m t len h room = go (items_lem m t h)
    where
      go :
          (xs : List Item) × (meta_items m ≡ some xs) × (read_meta (blank t) xs ≡ some (pos 0, m))
          → (serialize_meta mp m len ≡ some (pos (length (meta_bytes m)), meta_bytes m))
            × (0 < length (meta_bytes m))
            × (deserialize_meta mp (blank t) (meta_bytes m) ≡ some (pos 0, m))
      go (xs, e, r) = (
        ground (arith, e, room),
        ground (arith, e, packed_pos xs),
        ground (arith, e, r, mp.unpack-pack xs),
      )

  -- A text of more than 64 bytes in a request is copied past the end of its array.
  pub deserialize_overruns :
      (t : ℤ) (id : ℤ) (s : List ℕ) (x : Item)
      → text_size < length s
      → deserialize_meta mp (blank t) (packed (int rpctype_request ∷ int id ∷ str s ∷ x ∷ []))
        ≡ none
  unfolding deserialize_meta items_of read_meta read_request item_at as_int as_text to_u32
  deserialize_overruns t id s x h =
      ground (arith, mp.unpack-pack (int rpctype_request ∷ int id ∷ str s ∷ x ∷ []))
