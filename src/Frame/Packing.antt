-- ===== src/Frame/Packing.antt =====
-- `send_packet` builds the bytes of the message.
use sdpf.Prelude.{
  ℕ, ◌+◌, ◌-◌, ◌%◌, ◌≤◌, ◌<◌, ◌≡◌, refl, ap, ◌∙◌, Option, none, some, List, [], ◌++◌, length, take,
  overwrite, arith, length-append, length-overwrite, length-replicate, take_all, take-overwrite,
  take-overwrite_swap, pos, append-nil, is_positive_pos,
}
use sdpf.IoBuf.{IoBufImp, initial_size, create, store, has_written, writable_bytes}
use sdpf.IoBuf.Invariant.{IsValid, contents, writable_lem}
use sdpf.IoBuf.Stream.{has_written_lem, memcpy_in_lem}
use sdpf.Dispatcher.{MsgPack, MetaRpc}
use sdpf.Dispatcher.Roundtrip.{meta_bytes, IsMeta, serialize-deserialize}
use sdpf.Frame.{
  header_bytes, header_len, first_header, u16_mod, Serialize, htons, patch, set_len, commit,
  pack_body, pack, body_len_at, meta_len_at,
}
use sdpf.Frame.Wire.{header_of, wire}

-- A buffer of the initial size with nothing read from it and `xs` written to it.
pub record Holds (b : IoBufImp) (xs : List ℕ) : Type 0 where
  pub start : b.read_index ≡ 0
  pub count : b.write_index ≡ length xs
  pub size : length b.buff ≡ initial_size
  pub front : take (length xs) b.buff ≡ xs
  pub room : length xs ≤ initial_size

Holds-IsValid : {b : IoBufImp} {xs : List ℕ} → Holds b xs → IsValid b
Holds-IsValid h = omega arith

Holds-contents : {b : IoBufImp} (xs : List ℕ) → Holds b xs → contents b ≡ xs
Holds-contents {b} xs h =
    let e : b.write_index - b.read_index ≡ length xs = omega arith in rw (e, h.start) h.front

Holds-writable :
    {b : IoBufImp} (xs : List ℕ) → Holds b xs → writable_bytes b ≡ initial_size - length xs
Holds-writable xs h = omega (arith, writable_lem (Holds-IsValid h))

Holds-create : Holds (create initial_size) []
unfolding create
Holds-create = record {
  start = refl;
  count = refl;
  size = length-replicate {A = ℕ} initial_size 0;
  front = refl;
  room = omega arith;
}

-- Stored and counted bytes follow those that are there.
abbrev stored : IoBufImp → List ℕ → IoBufImp
stored b ys = record b { buff = overwrite b.buff b.write_index ys }

store_lem :
    {b : IoBufImp} {xs : List ℕ} (ys : List ℕ)
    → Holds b xs
    → length xs + length ys ≤ initial_size
    → store b ys ≡ some (stored b ys)
unfolding store
store_lem {b} ys h k = rw (
  memcpy_in_lem b.buff b.write_index ys (length ys) (omega arith) (omega arith),
  take_all (length ys) ys (omega arith),
)

Holds-append :
    {b : IoBufImp} (xs ys : List ℕ)
    → Holds b xs
    → length xs + length ys ≤ initial_size
    → Holds (has_written (stored b ys) (length ys)).1 (xs ++ ys)
Holds-append {b} xs ys h k =
    rw
      (has_written_lem {b = stored b ys} (length ys)
        (omega (arith, length-overwrite b.buff b.write_index ys))
        (omega (arith, length-overwrite b.buff b.write_index ys)))
      (record {
        start = h.start;
        count = omega (arith, length-append xs ys);
        size = omega (arith, length-overwrite b.buff b.write_index ys);
        front = whole;
        room = omega (arith, length-append xs ys);
      })
  where
    whole : take (length (xs ++ ys)) (overwrite b.buff b.write_index ys) ≡ xs ++ ys
    whole =
        rw (length-append xs ys, h.count)
          (take-overwrite b.buff (length xs) ys (omega arith) ∙ ap (λ l. l ++ ys) h.front)

Holds-patch :
    {b : IoBufImp} (xs : List ℕ) (i : ℕ) (ys : List ℕ)
    → Holds b xs
    → Holds (patch b i ys) (overwrite xs i ys)
unfolding patch
Holds-patch {b} xs i ys h = record {
  start = h.start;
  count = omega (arith, length-overwrite xs i ys);
  size = omega (arith, length-overwrite b.buff i ys);
  front =
      rw (length-overwrite xs i ys)
        (take-overwrite_swap (length xs) b.buff i ys ∙ ap (λ l. overwrite l i ys) h.front);
  room = omega (arith, length-overwrite xs i ys);
}

-- One part of the packet: the bytes that are stored, and their number in the header.
commit_lem :
    {b : IoBufImp} (xs ys : List ℕ) (i : ℕ)
    → Holds b xs
    → length xs + length ys ≤ initial_size
    → (b' : IoBufImp) × (commit b i (length ys) ys ≡ some b')
      × Holds b' (overwrite (xs ++ ys) i (htons (length ys % u16_mod)))
unfolding commit set_len
commit_lem {b} xs ys i h k = (
  patch (has_written (stored b ys) (length ys)).1 i (htons (length ys % u16_mod)),
  rw (store_lem ys h k),
  Holds-patch (xs ++ ys) i (htons (length ys % u16_mod)) (Holds-append xs ys h k),
)

module _ (mp : MsgPack) (m : MetaRpc) (im : IsMeta m) where
  abbrev ml : ℕ
  ml = length (meta_bytes mp m)

  abbrev blank_header : List ℕ
  blank_header = header_bytes (first_header m.type)

  -- The packet once the meta is in it.
  abbrev with_meta : List ℕ
  with_meta = overwrite (blank_header ++ meta_bytes mp m) meta_len_at (htons (ml % u16_mod))

  with_meta_lem : ml ≤ initial_size → with_meta ≡ wire mp m []
  unfolding wire header_of first_header
  with_meta_lem h = let e : ml % u16_mod ≡ ml = omega arith in rw (e, append-nil)

  with_body_lem :
      (body : List ℕ)
      → ml + length body ≤ initial_size
      → overwrite (with_meta ++ body) body_len_at (htons (length body % u16_mod)) ≡ wire mp m body
  unfolding wire header_of first_header
  with_body_lem body h =
      let e : ml % u16_mod ≡ ml = omega arith in
      let e' : length body % u16_mod ≡ length body = omega arith in rw (e, e')

  length-with_meta : length with_meta ≡ header_len + ml
  unfolding first_header
  length-with_meta =
      omega (
        arith,
        length-overwrite (blank_header ++ meta_bytes mp m) meta_len_at (htons (ml % u16_mod)),
      )

  -- Everything up to the body.
  pack_meta :
      (msg : Option Serialize)
      → header_len + ml ≤ initial_size
      → (b : IoBufImp) × (pack mp m msg ≡ pack_body b msg) × Holds b with_meta
  unfolding pack first_header
  pack_meta msg h =
      let h1 = Holds-append [] blank_header Holds-create (omega arith) in
      let (b, e, hb) = commit_lem blank_header (meta_bytes mp m) meta_len_at h1 (omega arith) in
      let s =
        serialize-deserialize mp m (pos 0)
          (writable_bytes (has_written (stored (create initial_size) blank_header) header_len).1) im
          (omega (arith, Holds-writable blank_header h1)) in
      (
        b,
        rw (store_lem blank_header Holds-create (omega arith), s.0)
            (rw (is_positive_pos ml s.1, e)),
        hb,
      )

  -- A serializer that stores as many bytes as it says, one at least, in the room that it is given.
  abbrev pub Stores : Serialize → List ℕ → Type 0
  Stores serialize body =
      (serialize (initial_size - (header_len + ml)) ≡ (pos (length body), body))
      × (0 < length body)
      × (header_len + ml + length body ≤ initial_size)

  -- `send_packet` of a request or response with a message that fits hands to the connection a
  -- buffer that holds exactly header, meta and body.
  pub pack-wire :
      (serialize : Serialize) (body : List ℕ)
      → Stores serialize body
      → (b : IoBufImp) × (pack mp m (some serialize) ≡ some (pos 0, b))
        × (contents b ≡ wire mp m body)
        × IsValid b
  unfolding pack_body
  pack-wire serialize body (e, p, room) =
      let (b, packed, h) = pack_meta (some serialize) (omega arith) in
      let (b', ready, h') =
        commit_lem with_meta body body_len_at h (omega (arith, length-with_meta)) in
      let w : writable_bytes b ≡ initial_size - (header_len + ml) =
        omega (arith, Holds-writable with_meta h, length-with_meta) in
      (
        b',
        packed ∙ rw (w, e) (rw (is_positive_pos (length body) p, ready)),
        Holds-contents _ h' ∙ with_body_lem body (omega arith),
        Holds-IsValid h',
      )

  -- `send_packet` of a request or response without a message, whose header and meta fit the
  -- initial size, hands to the connection a buffer that holds exactly header and meta, with a body
  -- of length 0.
  pub pack-wire_null :
      header_len + ml ≤ initial_size
      → (b : IoBufImp) × (pack mp m none ≡ some (pos 0, b))
        × (contents b ≡ wire mp m [])
        × IsValid b
  unfolding pack_body
  pack-wire_null room =
      let (b, packed, h) = pack_meta none room in
      (b, packed, Holds-contents _ h ∙ with_meta_lem (omega arith), Holds-IsValid h)
