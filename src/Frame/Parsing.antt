-- ===== src/Frame/Parsing.antt =====
-- `parse` on a buffer that starts with the bytes of a message.
use sdpf.Prelude.{
  ℕ, ◌+◌, ◌-◌, ◌≤◌, ◌<◌, ◌≡◌, refl, sym, ap, ◌∙◌, some, List, ◌++◌, length, drop, arith,
  length-append, ℤ, append_assoc, take-append_left, drop-append_left, take-append-drop, true,
  lt→ltb, le→ltb,
}
use sdpf.IoBuf.{IoBufImp, readable_bytes, begin_read}
use sdpf.IoBuf.Invariant.{IsValid, contents, length-contents}
use sdpf.Dispatcher.{MsgPack, MetaRpc}
use sdpf.Dispatcher.Roundtrip.{meta_bytes, IsMeta, serialize-deserialize}
use sdpf.Frame.{
  HeaderPacket, header_bytes, header_len, header_at, header_ok, pack_len, first_header, u16_mod,
  bytes_at, parse, parse_message, message, incomplete,
}
use sdpf.Frame.Wire.{header_of, wire, Carries, length-wire, ntohs-htons}

-- The memory at `begin_read()` is the contents of the buffer and what lies behind them.
pub memory_split : (b : IoBufImp) → (g : List ℕ) × (begin_read b ≡ contents b ++ g)
unfolding begin_read
memory_split b = (
  drop (b.write_index - b.read_index) (drop b.read_index b.buff),
  sym (take-append-drop (b.write_index - b.read_index) (drop b.read_index b.buff)),
)

-- The header of a message reads back as it was written.
header_at-header_of :
    (t : ℤ) (ml bl : ℕ) (rest : List ℕ)
    → ml < u16_mod
    → bl < u16_mod
    → header_at (header_bytes (header_of t ml bl) ++ rest) ≡ some (header_of t ml bl)
unfolding header_of first_header
header_at-header_of t ml bl rest h k = ground (arith, ntohs-htons ml h, ntohs-htons bl k)

bytes_at_front : (xs ys : List ℕ) → bytes_at (xs ++ ys) 0 (length xs) ≡ some xs
unfolding bytes_at
bytes_at_front xs ys = ground (arith, length-append xs ys, take-append_left xs ys)

bytes_at_behind :
    (front xs ys : List ℕ) → bytes_at (front ++ (xs ++ ys)) (length front) (length xs) ≡ some xs
unfolding bytes_at
bytes_at_behind front xs ys = ground (
  arith,
  length-append front (xs ++ ys),
  length-append xs ys,
  drop-append_left front (xs ++ ys),
  take-append_left xs ys,
)

-- `parse` behind the header's tests.
module _ (mp : MsgPack) (b : IoBufImp) (h : HeaderPacket) where
  pub parse_accepted :
      header_at (begin_read b) ≡ some h
      → header_ok h ≡ true
      → header_len ≤ readable_bytes b
      → pack_len h ≤ readable_bytes b
      → parse mp b ≡ parse_message mp (begin_read b) h
  unfolding parse
  parse_accepted e ok p q =
      rw (le→ltb (readable_bytes b) header_len p, e)
        (rw (ok) (rw (le→ltb (readable_bytes b) (pack_len h) q)))

  pub parse_waits :
      header_at (begin_read b) ≡ some h
      → header_ok h ≡ true
      → header_len ≤ readable_bytes b
      → readable_bytes b < pack_len h
      → parse mp b ≡ some incomplete
  unfolding parse
  parse_waits e ok p q =
      rw (le→ltb (readable_bytes b) header_len p, e)
        (rw (ok) (rw (lt→ltb (readable_bytes b) (pack_len h) q)))

module _ (mp : MsgPack) (m : MetaRpc) (body : List ℕ) (im : IsMeta m)
    (fits : Carries mp m body) where
  abbrev ml : ℕ
  ml = length (meta_bytes mp m)

  abbrev head : HeaderPacket
  head = header_of m.type ml (length body)

  -- The lengths of the header add up without a wrap.
  pub pack_len-wire : pack_len head ≡ length (wire mp m body)
  unfolding header_of first_header
  pack_len-wire = omega (arith, length-wire mp m body)

  meta_at :
      (rest : List ℕ) → bytes_at (wire mp m body ++ rest) header_len ml ≡ some (meta_bytes mp m)
  unfolding wire header_of first_header
  meta_at rest =
      rw (append_assoc (meta_bytes mp m) body rest)
        (bytes_at_behind (header_bytes head) (meta_bytes mp m) (body ++ rest))

  body_at :
      (rest : List ℕ)
      → bytes_at (wire mp m body ++ rest) (header_len + ml) (length body) ≡ some body
  unfolding wire header_of first_header
  body_at rest =
      ap (λ xs. bytes_at xs (header_len + ml) (length body)) split
      ∙ ap (λ k. bytes_at (front ++ (body ++ rest)) k (length body)) (sym at)
      ∙ bytes_at_behind front body rest
    where
      front : List ℕ
      front = header_bytes head ++ meta_bytes mp m

      at : length front ≡ header_len + ml
      at = omega arith

      split : wire mp m body ++ rest ≡ front ++ (body ++ rest)
      split = simp append_assoc

  pub parse_message-wire :
      (rest : List ℕ)
      → parse_message mp (wire mp m body ++ rest) head
        ≡ some (message (length (wire mp m body)) m body)
  unfolding parse_message header_of first_header
  parse_message-wire rest = rw (
    meta_at rest,
    (serialize-deserialize mp m _ ml im (omega arith)).2,
    body_at rest,
    pack_len-wire,
  )

  pub header_at-wire : (rest : List ℕ) → header_at (wire mp m body ++ rest) ≡ some head
  unfolding wire header_of
  header_at-wire rest =
      header_at-header_of m.type ml (length body) ((meta_bytes mp m ++ body) ++ rest) (omega arith)
        (omega arith)

  pub header_ok-wire : header_ok head ≡ true
  unfolding header_of first_header
  header_ok-wire = refl

  -- A valid buffer whose bytes begin with a message that fits the fields of its meta and header is
  -- parsed to that message: `parse` returns the message's length, its meta and its body, whatever
  -- follows.
  pub parse-wire :
      (b : IoBufImp) (rest : List ℕ)
      → IsValid b
      → contents b ≡ wire mp m body ++ rest
      → parse mp b ≡ some (message (length (wire mp m body)) m body)
  parse-wire b rest v e =
      let (g, split) = memory_split b in
      let memory : begin_read b ≡ wire mp m body ++ (rest ++ g) =
        split ∙ ap (λ xs. xs ++ g) e ∙ append_assoc (wire mp m body) rest g in
      parse_accepted mp b head (ap header_at memory ∙ header_at-wire (rest ++ g)) header_ok-wire
        (omega (arith, size, length-wire mp m body)) (omega (arith, size, pack_len-wire))
      ∙ ap (λ xs. parse_message mp xs head) memory
      ∙ parse_message-wire (rest ++ g)
    where
      size : readable_bytes b ≡ length (wire mp m body) + length rest
      size = sym (length-contents v) ∙ ap length e ∙ length-append (wire mp m body) rest
