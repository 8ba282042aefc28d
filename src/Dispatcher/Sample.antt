-- ===== src/Dispatcher/Sample.antt =====
-- An instance of `MsgPack`, which shows that what is assumed of the library can hold: a plain
-- format, in which an element is a tag, a length or value, and its bytes.
use sdpf.Prelude.{
  inl, ℕ, zero, suc, ◌≡◌, refl, ◌≢◌, Option, none, some, List, [], ◌∷◌, ◌++◌, length, take, drop,
  arith, pos, negsuc, ◌>>=◌, take-append_left, drop-append_left,
}
use sdpf.Dispatcher.Roundtrip.{IsMeta, meta_bytes}
use sdpf.Dispatcher.{
  MetaRpc, meta_items, rpctype_request, Item, int, str, bin, other, Object, array, MsgPack,
  map_items,
}

abbrev pub item : Item → List ℕ
item (int (pos n)) = 0 ∷ n ∷ []
item (int (negsuc n)) = 1 ∷ n ∷ []
item (str s) = 2 ∷ length s ∷ s
item (bin s) = 3 ∷ length s ∷ s
item other = 4 ∷ 0 ∷ []

unfoldable pub next : ℕ → ℕ → List ℕ → Item × List ℕ
next zero n rest = (int (pos n), rest)
next (suc zero) n rest = (int (negsuc n), rest)
next (suc (suc zero)) n rest = (str (take n rest), drop n rest)
next (suc (suc (suc zero))) n rest = (bin (take n rest), drop n rest)
next (suc (suc (suc (suc k)))) n rest = (other, rest)

unfoldable pub items : ℕ → List ℕ → Option (List Item)
items zero bytes = some []
items (suc k) [] = none
items (suc k) (t ∷ []) = none
items (suc k) (t ∷ n ∷ rest) =
    let (x, after) = next t n rest in items k after >>= λ xs. some (x ∷ xs)

unfoldable pub unpack : List ℕ → Option Object
unpack [] = none
unpack (n ∷ bytes) = items n bytes >>= λ xs. some (array xs)

items-map_items : (xs : List Item) → items (length xs) (map_items item xs) ≡ some xs
unfolding items next
items-map_items [] = refl
items-map_items (int (pos n) ∷ xs) = rw (items-map_items xs)
items-map_items (int (negsuc n) ∷ xs) = rw (items-map_items xs)
items-map_items (str s ∷ xs) = rw (
  take-append_left s (map_items item xs),
  drop-append_left s (map_items item xs),
  items-map_items xs,
)
items-map_items (bin s ∷ xs) = rw (
  take-append_left s (map_items item xs),
  drop-append_left s (map_items item xs),
  items-map_items xs,
)
items-map_items (other ∷ xs) = rw (items-map_items xs)

pub unpack-pack :
    (xs : List Item) → unpack ((length xs ∷ []) ++ map_items item xs) ≡ some (array xs)
unfolding unpack
unpack-pack xs = rw (items-map_items xs)

pub head_ne_nil : (n : ℕ) → ◌≢◌ {A = List ℕ} (n ∷ []) []
head_ne_nil n e = cc

abbrev pub plain_pack : MsgPack
plain_pack = record {
  array_head = λ n. n ∷ [];
  item = item;
  unpack = unpack;
  unpack-pack = unpack-pack;
  head_ne_nil = head_ne_nil;
}

-- A small request.
abbrev pub echo_request : MetaRpc
echo_request = record {
  type = rpctype_request;
  relation_id = 7;
  service = b'S' ∷ [];
  method = b'M' ∷ [];
  code = pos 0;
  text = [];
}

pub echo_request-IsMeta : IsMeta echo_request
echo_request-IsMeta = inl (record {
  kind = refl;
  id = omega arith;
  service = record { plain = (omega arith, tt); short = omega arith };
  method = record { plain = (omega arith, tt); short = omega arith };
  no_code = refl;
  no_text = refl;
})

pub length-echo_request : length (meta_bytes plain_pack echo_request) ≡ 11
unfolding meta_bytes meta_items
length-echo_request = refl
