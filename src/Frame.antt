-- ===== src/Frame.antt =====
-- Messages on the wire: `HeaderPacket`, and the parts of src/RpcChannel.cpp that pack a message
-- into a buffer (`send_packet`), take one out of the received bytes (`parse`) and go through all
-- that have come (`on_recv`).
--
-- `none` is undefined behaviour, as in `IoBuf` and `Dispatcher`.
pub mod Wire
pub mod Packing
pub mod Parsing
pub mod Receiving
pub mod Decoding
pub mod Indices
mod Tests
use sdpf.Prelude.{
  ℕ, zero, suc, ◌+◌, ◌*◌, ◌/◌, ◌%◌, ◌^◌, Bool, true, false, not, ◌&&◌, ◌||◌, Option, none, some,
  List, [], ◌∷◌, ◌++◌, length, take, drop, overwrite, ltb, leb, ◌==◌, if◌then◌else◌, ℤ, pos, negsuc,
  neg, is_positive, is_zero, ◌>>=◌,
}
use sdpf.IoBuf.{
  IoBufImp, initial_size, create, store, has_written, has_readed, writable_bytes, readable_bytes,
  begin_read,
}
use sdpf.Dispatcher.{MsgPack, MetaRpc, blank, serialize_meta, deserialize_meta}

-- `HeaderPacket`; the lengths are those that `ntohs` gives, the other fields are bytes.
pub record HeaderPacket : Type 0 where
  pub mark : List ℕ
  pub body_len : ℕ
  pub meta_len : ℕ
  pub type : ℕ
  pub mode : ℕ
  pub version : ℕ
  pub reserve : ℕ

-- `sizeof(HeaderPacket)`
abbrev pub header_len : ℕ
header_len = 12

abbrev pub u16_mod : ℕ
u16_mod = 2 ^ 16

-- "ERPC"
abbrev pub erpc : List ℕ
erpc = b'E' ∷ b'R' ∷ b'P' ∷ b'C' ∷ []

-- `htons` of a number stored in a `uint16_t`, and `ntohs` of two bytes.
abbrev pub htons : ℕ → List ℕ
htons n = (n / 256 % 256) ∷ (n % 256) ∷ []

abbrev pub ntohs : ℕ → ℕ → ℕ
ntohs hi lo = hi * 256 + lo

-- The header in memory.
abbrev pub header_bytes : HeaderPacket → List ℕ
header_bytes h =
    h.mark
    ++ (htons h.body_len ++ (htons h.meta_len ++ (h.type ∷ h.mode ∷ h.version ∷ h.reserve ∷ [])))

-- `(HeaderPacket*)buf`
abbrev pub header_at : List ℕ → Option HeaderPacket
header_at (m0 ∷ m1 ∷ m2 ∷ m3 ∷ b0 ∷ b1 ∷ l0 ∷ l1 ∷ t ∷ m ∷ v ∷ r ∷ rest) = some (record {
  mark = m0 ∷ m1 ∷ m2 ∷ m3 ∷ [];
  body_len = ntohs b0 b1;
  meta_len = ntohs l0 l1;
  type = t;
  mode = m;
  version = v;
  reserve = r;
})
header_at _ = none

-- `memcmp`
abbrev pub same_bytes : List ℕ → List ℕ → Bool
same_bytes [] [] = true
same_bytes [] (y ∷ ys) = false
same_bytes (x ∷ xs) [] = false
same_bytes (x ∷ xs) (y ∷ ys) = x == y && same_bytes xs ys

abbrev pub header_ok : HeaderPacket → Bool
header_ok h = same_bytes h.mark erpc && (h.mode == 1 && h.version == 0x10)

-- `pack_len = header_len + meta_len + body_len`, a `uint16_t`.
abbrev pub pack_len : HeaderPacket → ℕ
pack_len h = (header_len + h.meta_len + h.body_len) % u16_mod

-- How `parse` ends: it waits for more bytes (0), refuses the header (-1) or the meta (-2), or has
-- a message to process and returns its length.
pub data Parsed : Type 0 where
  incomplete bad_header bad_meta : Parsed
  message : ℕ → MetaRpc → List ℕ → Parsed

-- The bytes that a pointer into the vector gives access to. A length that reaches beyond the vector is
-- counted as undefined when it is handed on, though msgpack may stop before its end.
unfoldable pub bytes_at : List ℕ → ℕ → ℕ → Option (List ℕ)
bytes_at memory i n = if leb (i + n) (length memory) then some (take n (drop i memory)) else none

-- What `on_recv` leaves: the buffer, the channel, and whether it has stopped the connection.
pub record Received (S : Type 0) : Type 0 where
  pub buffer : IoBufImp
  pub state : S
  pub stopped : Bool

module _ (mp : MsgPack) where
  unfoldable pub parse_message : List ℕ → HeaderPacket → Option Parsed
  parse_message memory h = do
    meta ← bytes_at memory header_len h.meta_len
    (ret, m) ← deserialize_meta mp (blank (pos h.type)) meta
    if not (is_zero ret) then some bad_meta else (do
      body ← bytes_at memory (header_len + h.meta_len) h.body_len
      some (message (pack_len h) m body))

  -- `parse`, up to the call of `process_request` or `process_response`.
  unfoldable pub parse : IoBufImp → Option Parsed
  parse pb = if ltb (readable_bytes pb) header_len then some incomplete else do
    h ← header_at (begin_read pb)
    if not (header_ok h)
        then some bad_header
        else if ltb (readable_bytes pb) (pack_len h)
        then some incomplete
        else parse_message (begin_read pb) h

  -- `process` is the processing of a message on the channel's state. A message of length 0 ends
  -- the loop, as `ret > 0` fails. Each round reads a byte at least, so that fuel above the number
  -- of readable bytes is enough.
  unfoldable pub on_recv :
      {S : Type 0} → (process : MetaRpc → List ℕ → S → S) → ℕ → IoBufImp → S → Option (Received S)
  on_recv process zero pb s = none
  on_recv process (suc fuel) pb s = parse pb >>= λ p. elim p [
    | incomplete ↦ some (record { buffer = pb; state = s; stopped = false })
    | bad_header ↦ some (record { buffer = pb; state = s; stopped = true })
    | bad_meta ↦ some (record { buffer = pb; state = s; stopped = true })
    | message zero m body ↦ some (record { buffer = pb; state = process m body s; stopped = false })
    | message (suc n) m body ↦ on_recv process fuel (has_readed pb (suc n)).1 (process m body s)
  ]

-- What a message's `serialize` does with room for a number of bytes: its status, and the bytes it
-- stores. The interface is implemented by the program that uses the library.
abbrev pub Serialize : Type 0
Serialize = ℕ → ℤ × List ℕ

abbrev pub magnitude : ℤ → ℕ
magnitude (pos n) = n
magnitude (negsuc n) = suc n

-- A write through `header`, which points to the start of the vector.
unfoldable pub patch : IoBufImp → ℕ → List ℕ → IoBufImp
patch b i bytes = record b { buff = overwrite b.buff i bytes }

-- `htons(ret)`: the low 16 bits of the length.
unfoldable pub set_len : IoBufImp → ℕ → ℕ → IoBufImp
set_len b i ret = patch b i (htons (ret % u16_mod))

-- The bytes that a serializer stored at `begin_write()` become readable.
unfoldable pub commit : IoBufImp → ℕ → ℕ → List ℕ → Option IoBufImp
commit b i ret bytes = do b' ← store b bytes; some (set_len (has_written b' ret).1 i ret)

-- The offsets of `body_len` and `meta_len` in the header.
abbrev pub body_len_at : ℕ
body_len_at = 4

abbrev pub meta_len_at : ℕ
meta_len_at = 6

unfoldable pub first_header : ℤ → HeaderPacket
first_header type = record {
  mark = erpc;
  body_len = 0;
  meta_len = 0;
  type = magnitude type % 256;
  mode = 1;
  version = 0x10;
  reserve = b'#';
}

-- The part of `send_packet` for the body; `none` is a null message.
unfoldable pub pack_body : IoBufImp → Option Serialize → Option (ℤ × IoBufImp)
pack_body b none = some (pos 0, b)
pack_body b (some serialize) =
    let (ret, bytes) = serialize (writable_bytes b) in
    if is_positive ret
    then (do b' ← commit b body_len_at (magnitude ret) bytes; some (pos 0, b'))
    else some (neg 2, b)

-- `send_packet`, up to the call of `conn_->send`: 0 and the packet, or a status.
unfoldable pub pack : MsgPack → MetaRpc → Option Serialize → Option (ℤ × IoBufImp)
pack mp meta msg = do
  b ← store (create initial_size) (header_bytes (first_header meta.type))
  let head = (has_written b header_len).1
  (ret, bytes) ← serialize_meta mp meta (writable_bytes head)
  if is_positive ret
      then (do b' ← commit head meta_len_at (magnitude ret) bytes; pack_body b' msg)
      else some (neg 1, head)
