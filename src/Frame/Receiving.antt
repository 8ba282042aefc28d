-- ===== src/Frame/Receiving.antt =====
-- `on_recv` and the stream: the messages are those that were sent, however the bytes were cut up.
use sdpf.Prelude.{
  ℕ, zero, suc, ◌+◌, ◌≤◌, ◌<◌, ◌≡◌, refl, sym, ap, ◌∙◌, false, some, List, [], ◌∷◌, ◌++◌, length,
  take, drop, arith, length-append, length-take, length-drop, pos, append_assoc, append-nil,
  drop-append_left, lt→ltb, take-append-drop,
}
use native.Mathlib.Decide.{dec_lt}
use sdpf.IoBuf.{IoBufImp, readable_bytes, has_readed, begin_read}
use sdpf.IoBuf.Invariant.{IsValid, contents, length-contents}
use sdpf.IoBuf.Stream.{has_readed_drops}
use sdpf.Dispatcher.{MsgPack, MetaRpc}
use sdpf.Dispatcher.Roundtrip.{IsMeta}
use sdpf.Frame.{header_len, header_at, parse, message, incomplete, Received, on_recv}
use sdpf.Frame.Wire.{wire, Carries, length-wire}
use sdpf.Frame.Parsing.{
  parse-wire, parse_waits, memory_split, header_at-wire, header_ok-wire, pack_len-wire,
}

-- The header depends on the first 12 bytes alone.
header_at_front :
    (xs g g' : List ℕ) → header_len ≤ length xs → header_at (xs ++ g) ≡ header_at (xs ++ g')
header_at_front [] g g' h = absurd (omega arith)
header_at_front (x0 ∷ []) g g' h = absurd (omega arith)
header_at_front (x0 ∷ x1 ∷ []) g g' h = absurd (omega arith)
header_at_front (x0 ∷ x1 ∷ x2 ∷ []) g g' h = absurd (omega arith)
header_at_front (x0 ∷ x1 ∷ x2 ∷ x3 ∷ []) g g' h = absurd (omega arith)
header_at_front (x0 ∷ x1 ∷ x2 ∷ x3 ∷ x4 ∷ []) g g' h = absurd (omega arith)
header_at_front (x0 ∷ x1 ∷ x2 ∷ x3 ∷ x4 ∷ x5 ∷ []) g g' h = absurd (omega arith)
header_at_front (x0 ∷ x1 ∷ x2 ∷ x3 ∷ x4 ∷ x5 ∷ x6 ∷ []) g g' h = absurd (omega arith)
header_at_front (x0 ∷ x1 ∷ x2 ∷ x3 ∷ x4 ∷ x5 ∷ x6 ∷ x7 ∷ []) g g' h = absurd (omega arith)
header_at_front (x0 ∷ x1 ∷ x2 ∷ x3 ∷ x4 ∷ x5 ∷ x6 ∷ x7 ∷ x8 ∷ []) g g' h = absurd (omega arith)
header_at_front (x0 ∷ x1 ∷ x2 ∷ x3 ∷ x4 ∷ x5 ∷ x6 ∷ x7 ∷ x8 ∷ x9 ∷ []) g g' h = absurd (omega arith)
header_at_front (x0 ∷ x1 ∷ x2 ∷ x3 ∷ x4 ∷ x5 ∷ x6 ∷ x7 ∷ x8 ∷ x9 ∷ x10 ∷ []) g g' h =
    absurd (omega arith)
header_at_front (x0 ∷ x1 ∷ x2 ∷ x3 ∷ x4 ∷ x5 ∷ x6 ∷ x7 ∷ x8 ∷ x9 ∷ x10 ∷ x11 ∷ xs) g g' h = refl

module _ (mp : MsgPack) where
  abbrev pub Message : Type 0
  Message = MetaRpc × List ℕ

  -- A message that the two ends can carry.
  abbrev pub IsMessage : MetaRpc → List ℕ → Type 0
  IsMessage m body = IsMeta m × Carries mp m body

  unfoldable pub wires : List (MetaRpc × List ℕ) → List ℕ
  wires [] = []
  wires ((m, body) ∷ ms) = wire mp m body ++ wires ms

  abbrev pub AllMessages : List (MetaRpc × List ℕ) → Type 0
  AllMessages [] = Unit {0}
  AllMessages ((m, body) ∷ ms) = IsMessage m body × AllMessages ms

  parse_short :
      (b : IoBufImp) → IsValid b → length (contents b) < header_len → parse mp b ≡ some incomplete
  unfolding parse
  parse_short b v h = rw (lt→ltb (readable_bytes b) header_len (omega (arith, length-contents v)))

  -- Of a message that has not come whole `parse` says so.
  pub parse_cut :
      (b : IoBufImp) (m : MetaRpc) (body : List ℕ) (k : ℕ)
      → IsValid b
      → IsMessage m body
      → k < length (wire mp m body)
      → contents b ≡ take k (wire mp m body)
      → parse mp b ≡ some incomplete
  parse_cut b m body k v (im, fits) h e = elim (dec_lt (length (contents b)) header_len) [
    | yes p ↦ parse_short b v p
    | no p ↦
        let (g, split) = memory_split b in
        let memory : header_at (begin_read b) ≡ header_at (take k w ++ drop k w) =
          ap header_at (split ∙ ap (λ xs. xs ++ g) e)
          ∙ header_at_front (take k w) g (drop k w) (omega (arith, ap length e)) in
        parse_waits mp b _
          (memory
            ∙ ap header_at (take-append-drop k w ∙ sym (append-nil w))
            ∙ header_at-wire mp m body im fits [])
          (header_ok-wire mp m body im fits) (omega (arith, length-contents v))
          (omega (
            arith,
            length-contents v,
            ap length e,
            length-take k w,
            pack_len-wire mp m body im fits,
          ))
  ]
    where
      w : List ℕ
      w = wire mp m body

  on_recv_message :
      {S : Type 0} (process : MetaRpc → List ℕ → S → S) (fuel : ℕ) (b : IoBufImp) (s : S) (n : ℕ)
      (m : MetaRpc) (body : List ℕ)
      → parse mp b ≡ some (message n m body)
      → 0 < n
      → on_recv mp process (suc fuel) b s
        ≡ on_recv mp process fuel (has_readed b n).1 (process m body s)
  unfolding on_recv
  on_recv_message process fuel b s zero m body e h = elim h [ ]
  on_recv_message process fuel b s (suc n) m body e h = rw e

  on_recv_incomplete :
      {S : Type 0} (process : MetaRpc → List ℕ → S → S) (fuel : ℕ) (b : IoBufImp) (s : S)
      → parse mp b ≡ some incomplete
      → on_recv mp process (suc fuel) b s ≡ some (record { buffer = b; state = s; stopped = false })
  unfolding on_recv
  on_recv_incomplete process fuel b s e = rw e

  abbrev pub process_all :
      {S : Type 0} → (MetaRpc → List ℕ → S → S) → List (MetaRpc × List ℕ) → S → S
  process_all process [] s = s
  process_all process ((m, body) ∷ ms) s = process_all process ms (process m body s)

  pub process_all-append :
      {S : Type 0} (process : MetaRpc → List ℕ → S → S) (ms ns : List (MetaRpc × List ℕ)) (s : S)
      → process_all process (ms ++ ns) s ≡ process_all process ns (process_all process ms s)
  process_all-append process [] ns s = refl
  process_all-append process ((m, body) ∷ ms) ns s =
      process_all-append process ms ns (process m body s)

  -- What is left over: nothing, or the beginning of a message.
  abbrev pub IsCut : List ℕ → Type 0
  IsCut tail =
      (m : MetaRpc) × (body : List ℕ) × (k : ℕ) × IsMessage m body
      × (k < length (wire mp m body))
      × (tail ≡ take k (wire mp m body))

  -- On a valid buffer that holds the bytes of some messages and of the beginning of a next one,
  -- wherever the stream was cut, `on_recv`, with more fuel than readable bytes, ends, processes
  -- exactly the messages that have come whole, once each and in the order in which they were sent,
  -- does not stop the connection, and keeps the beginning of the next message in the buffer. (Request
  -- and response metas that fit their fields, and messages whose lengths fit 16 bits.)
  pub on_recv-wires :
      {S : Type 0} (process : MetaRpc → List ℕ → S → S) (ms : List (MetaRpc × List ℕ))
      (tail : List ℕ) (fuel : ℕ) (b : IoBufImp) (s : S)
      → IsValid b
      → AllMessages ms
      → IsCut tail
      → contents b ≡ wires ms ++ tail
      → readable_bytes b < fuel
      → (r : Received S) × (on_recv mp process fuel b s ≡ some r)
        × (r.state ≡ process_all process ms s)
        × (r.stopped ≡ false)
        × (contents r.buffer ≡ tail)
        × IsValid r.buffer
  unfolding wires
  on_recv-wires process ms tail zero b s v a c e h = elim h [ ]
  on_recv-wires process [] tail (suc fuel) b s v a (m, body, k, im, short, cut) e h = (
    record { buffer = b; state = s; stopped = false },
    on_recv_incomplete process fuel b s (parse_cut b m body k v im short (e ∙ cut)),
    refl,
    refl,
    e,
    v,
  )
  on_recv-wires process ((m, body) ∷ ms) tail (suc fuel) b s v a c e h =
      let (r, run, state, going, left, valid) =
        on_recv-wires process ms tail fuel (has_readed b n).1 (process m body s) dropped.2 a.1 c
          (dropped.1 ∙ ap (drop n) whole ∙ drop-append_left (wire mp m body) (wires ms ++ tail))
          fewer in
      (
        r,
        on_recv_message process fuel b s n m body
              (parse-wire mp m body a.0.0 a.0.1 b (wires ms ++ tail) v whole)
              (omega (arith, length-wire mp m body))
            ∙ run,
        state,
        going,
        left,
        valid,
      )
    where
      n : ℕ
      n = length (wire mp m body)

      whole : contents b ≡ wire mp m body ++ (wires ms ++ tail)
      whole = e ∙ append_assoc (wire mp m body) (wires ms) tail

      enough : n + length (wires ms ++ tail) ≡ length (contents b)
      enough = sym (ap length whole ∙ length-append (wire mp m body) (wires ms ++ tail))

      dropped :
          ((has_readed b n).0 ≡ pos 0)
          × (contents (has_readed b n).1 ≡ drop n (contents b))
          × IsValid (has_readed b n).1
      dropped = has_readed_drops b n v (omega (arith, enough))

      fewer : readable_bytes (has_readed b n).1 < fuel
      fewer = omega (
        arith,
        length-contents v,
        length-contents dropped.2,
        ap length dropped.1,
        length-drop n (contents b),
        length-wire mp m body,
        enough,
      )
