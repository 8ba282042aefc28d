-- ===== src/Frame/Wire.antt =====
-- The bytes of a message on the wire.
use sdpf.Prelude.{ℕ, ◌+◌, ◌/◌, ◌%◌, ◌<◌, ◌≡◌, List, ◌++◌, length, arith, length-append, ℤ}
use sdpf.Dispatcher.{MsgPack, MetaRpc}
use sdpf.Dispatcher.Roundtrip.{meta_bytes}
use sdpf.Frame.{HeaderPacket, header_bytes, header_len, first_header, u16_mod, ntohs}

-- The header that the two lengths make complete.
unfoldable pub header_of : ℤ → ℕ → ℕ → HeaderPacket
unfolding first_header
header_of type meta_len body_len = record (first_header type) {
  meta_len = meta_len;
  body_len = body_len;
}

module _ (mp : MsgPack) where
  -- Header, meta, body.
  unfoldable pub wire : MetaRpc → List ℕ → List ℕ
  wire m body =
      header_bytes (header_of m.type (length (meta_bytes mp m)) (length body))
      ++ (meta_bytes mp m ++ body)

  -- The 16-bit lengths of the header can say how long the message is.
  abbrev pub Carries : MetaRpc → List ℕ → Type 0
  Carries m body = header_len + length (meta_bytes mp m) + length body < u16_mod

  pub length-wire :
      (m : MetaRpc) (body : List ℕ)
      → length (wire m body) ≡ header_len + length (meta_bytes mp m) + length body
  unfolding wire header_of first_header
  length-wire m body = omega (arith, length-append (meta_bytes mp m) body)

pub ntohs-htons : (n : ℕ) → n < u16_mod → ntohs (n / 256 % 256) (n % 256) ≡ n
ntohs-htons n h = omega arith
