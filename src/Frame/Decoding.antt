-- ===== src/Frame/Decoding.antt =====
-- The stream of messages that src/RpcChannel.cpp sends can be read in one way only.
use sdpf.Prelude.{
  ℕ, ◌≡◌, refl, sym, ap, ◌∙◌, Option, none, some, List, [], ◌∷◌, ◌++◌, length, drop, arith, pos,
  length-append, append_assoc, drop-append_left, ◌>>=◌,
}
use sdpf.Dispatcher.{MsgPack, MetaRpc, blank}
use sdpf.Frame.{Parsed, message, incomplete, bad_header, bad_meta, header_at, parse_message}
use sdpf.Frame.Wire.{wire, length-wire}
use sdpf.Frame.Parsing.{parse_message-wire, header_at-wire}
use sdpf.Frame.Receiving.{AllMessages, IsMessage, wires}

abbrev what : Option Parsed → MetaRpc × List ℕ
what (some (message n m body)) = (m, body)
what (some incomplete) = (blank (pos 0), [])
what (some bad_header) = (blank (pos 0), [])
what (some bad_meta) = (blank (pos 0), [])
what none = (blank (pos 0), [])

module _ (mp : MsgPack) where
  abbrev pub packet : MetaRpc × List ℕ → List ℕ
  packet (m, body) = wire mp m body

  decode-wire :
      (m : MetaRpc) (body rest : List ℕ)
      → IsMessage mp m body
      → what (header_at (wire mp m body ++ rest) >>= parse_message mp (wire mp m body ++ rest))
        ≡ (m, body)
  decode-wire m body rest (im, fits) =
      ap (λ o. what (o >>= parse_message mp (wire mp m body ++ rest)))
        (header_at-wire mp m body im fits rest)
      ∙ ap what (parse_message-wire mp m body im fits rest)

  first_message :
      (m m' : MetaRpc) (body body' xs ys : List ℕ)
      → IsMessage mp m body
      → IsMessage mp m' body'
      → wire mp m body ++ xs ≡ wire mp m' body' ++ ys
      → Path (MetaRpc × List ℕ) (m, body) (m', body')
  first_message m m' body body' xs ys i i' e =
      sym (decode-wire m body xs i)
      ∙ ap (λ l. what (header_at l >>= parse_message mp l)) e
      ∙ decode-wire m' body' ys i'

  append_cancel : (xs ys zs : List ℕ) → xs ++ ys ≡ xs ++ zs → ys ≡ zs
  append_cancel xs ys zs e =
      sym (drop-append_left xs ys) ∙ ap (drop (length xs)) e ∙ drop-append_left xs zs

  -- Messages whose bytes are the beginning of the bytes of other messages are the first of those.
  pub wires_prefix :
      (ns ms : List (MetaRpc × List ℕ)) (xs : List ℕ)
      → AllMessages mp ns
      → AllMessages mp ms
      → wires mp ns ++ xs ≡ wires mp ms
      → (missing : List (MetaRpc × List ℕ)) × (ms ≡ ns ++ missing)
  unfolding wires
  wires_prefix [] ms xs a b e = (ms, refl)
  wires_prefix ((m, body) ∷ ns) [] xs a b e = absurd (
      omega (
        arith,
        ap length e,
        length-append (wire mp m body ++ wires mp ns) xs,
        length-append (wire mp m body) (wires mp ns),
        length-wire mp m body,
      ))
  wires_prefix ((m, body) ∷ ns) ((m', body') ∷ ms) xs a b e =
      let same : Path (MetaRpc × List ℕ) (m, body) (m', body') =
        first_message m m' body body' (wires mp ns ++ xs) (wires mp ms) a.0 b.0 flat in
      let (missing, rest) = wires_prefix ns ms xs a.1 b.1 (
        append_cancel (wire mp m body) (wires mp ns ++ xs) (wires mp ms)
          (flat ∙ ap (λ p. packet p ++ wires mp ms) (sym same))) in
      (missing, ap (λ p. p ∷ ms) (sym same) ∙ ap (◌∷◌ (m, body)) rest)
    where
      flat : wire mp m body ++ (wires mp ns ++ xs) ≡ wire mp m' body' ++ wires mp ms
      flat = sym (append_assoc (wire mp m body) (wires mp ns) xs) ∙ e
