-- ===== src/Link/Pipeline.antt =====
-- From the queue of one connection to the channel behind the other: what src/TcpConnection.cpp writes
-- at one end, and reads and hands to `on_recv` at the other.
use sdpf.Prelude.{
  ℕ, ◌≡◌, refl, sym, ap, ◌∙◌, Option, none, some, List, [], ◌∷◌, ◌++◌, length, drop, arith, ℤ,
  append_assoc, append-nil, map, map-append, take, drop-append_left, subst,
}
use sdpf.IoBuf.{IoBufImp, begin_read}
use sdpf.IoBuf.Invariant.{IsValid, contents, readable_lem}
use sdpf.IoBuf.Compact.{IsCompactable}
use sdpf.Dispatcher.{MsgPack, MetaRpc}
use sdpf.Frame.Wire.{wire}
use sdpf.Frame.Receiving.{wires, AllMessages, IsMessage, process_all}
use sdpf.Frame.Decoding.{wires_prefix}
use sdpf.TcpConnection.{World, UvQuery, UvCall, write_bytes, Notice}
use sdpf.TcpConnection.Sending.{Event, run, write_of, in_flight, live, IsStreaming, run-IsStreaming}
use sdpf.Link.{arrive_all}
use sdpf.Link.Reading.{up}
use sdpf.Link.Streaming.{concat, Reads, no_reads, one_read, arrive_all-Reads}

-- The bytes that libuv was given to write, in order.
unfoldable pub bytes_of : List UvCall → List ℕ
bytes_of [] = []
bytes_of (write_bytes bytes ∷ cs) = bytes ++ bytes_of cs
bytes_of (c ∷ cs) = bytes_of cs

bytes_of-append : (xs ys : List UvCall) → bytes_of (xs ++ ys) ≡ bytes_of xs ++ bytes_of ys
unfolding bytes_of
bytes_of-append [] ys = refl
bytes_of-append (write_bytes bytes ∷ xs) ys =
    ap (bytes ++◌) (bytes_of-append xs ys) ∙ sym (append_assoc bytes (bytes_of xs) (bytes_of ys))
bytes_of-append (UvCall.tcp_init ∷ xs) ys = bytes_of-append xs ys
bytes_of-append (UvCall.tcp_nodelay ∷ xs) ys = bytes_of-append xs ys
bytes_of-append (UvCall.read_start ∷ xs) ys = bytes_of-append xs ys
bytes_of-append (UvCall.read_stop ∷ xs) ys = bytes_of-append xs ys
bytes_of-append (UvCall.close_handle ∷ xs) ys = bytes_of-append xs ys
bytes_of-append (UvCall.tcp_connect a ∷ xs) ys = bytes_of-append xs ys

module _ (mp : MsgPack) where
  -- Each buffer holds the bytes of a message.
  abbrev pub Packets : List IoBufImp → List (MetaRpc × List ℕ) → Type 0
  Packets [] [] = Unit {0}
  Packets (b ∷ bs) ((m, body) ∷ ms) =
      (IsValid b × IsMessage mp m body × (contents b ≡ wire mp m body)) × Packets bs ms
  Packets _ _ = ⊥

  all_messages :
      (bs : List IoBufImp) (ms : List (MetaRpc × List ℕ)) → Packets bs ms → AllMessages mp ms
  all_messages [] [] h = tt
  all_messages (b ∷ bs) ((m, body) ∷ ms) ((v, im, e), h) = (im, all_messages bs ms h)
  all_messages [] (m ∷ ms) h = elim h [ ]
  all_messages (b ∷ bs) [] h = elim h [ ]

  pub bytes_of-Packets :
      (bs : List IoBufImp) (ms : List (MetaRpc × List ℕ))
      → Packets bs ms
      → bytes_of (map write_of bs) ≡ wires mp ms
  unfolding bytes_of wires begin_read
  bytes_of-Packets [] [] h = refl
  bytes_of-Packets (b ∷ bs) ((m, body) ∷ ms) ((v, im, e), h) =
      ap (λ n. take n (drop b.read_index b.buff) ++ bytes_of (map write_of bs)) (readable_lem v)
      ∙ ap (λ xs. xs ++ bytes_of (map write_of bs)) e
      ∙ ap (wire mp m body ++◌) (bytes_of-Packets bs ms h)
  bytes_of-Packets [] (m ∷ ms) h = elim h [ ]
  bytes_of-Packets (b ∷ bs) [] h = elim h [ ]

  append-AllMessages :
      (ms ns : List (MetaRpc × List ℕ))
      → AllMessages mp ms
      → AllMessages mp ns
      → AllMessages mp (ms ++ ns)
  append-AllMessages [] ns a b = b
  append-AllMessages ((m, body) ∷ ms) ns a b = (a.0, append-AllMessages ms ns a.1 b)

  wires-append :
      (ms ns : List (MetaRpc × List ℕ)) → wires mp (ms ++ ns) ≡ wires mp ms ++ wires mp ns
  unfolding wires
  wires-append [] ns = refl
  wires-append ((m, body) ∷ ms) ns =
      ap (wire mp m body ++◌) (wires-append ms ns)
      ∙ sym (append_assoc (wire mp m body) (wires mp ms) (wires mp ns))

  -- What has been read is the messages that it completes, and what was left.
  concat-wires :
      {held after : List ℕ} {cs : List (List ℕ)} {ns : List (MetaRpc × List ℕ)}
      → Reads mp held cs ns after
      → (held ++ concat cs ≡ wires mp ns ++ after) × AllMessages mp ns
  unfolding wires
  concat-wires (no_reads {held}) = (append-nil held, tt)
  concat-wires
        (one_read {held} {c} {tail} {after} {cs} {ns} ms p small a cut whole more fits rest) =
      let (e, b) = concat-wires rest in
      (
        sym (append_assoc held c (concat cs))
            ∙ ap (λ xs. xs ++ concat cs) whole
            ∙ append_assoc (wires mp ms) tail (concat cs)
            ∙ ap (wires mp ms ++◌) e
            ∙ sym (append_assoc (wires mp ms) (wires mp ns) after)
            ∙ ap (λ xs. xs ++ after) (sym (wires-append ms ns)),
        append-AllMessages ms ns a b,
      )

  -- What is written, and what waits behind the front of the queue.
  written_first : (gone q : List IoBufImp) → gone ++ q ≡ (gone ++ in_flight q) ++ drop 1 q
  written_first gone [] = sym (append-nil (gone ++ []))
  written_first gone (b ∷ q) = sym (append_assoc gone (b ∷ []) q)

  -- What is written is the beginning of what is accepted.
  written_prefix :
      (before : List UvCall) {acc q : List IoBufImp} {calls : List UvCall}
      (ms : List (MetaRpc × List ℕ))
      → IsStreaming before acc q calls
      → Packets acc ms
      → (later : List ℕ) × (drop (length (bytes_of before)) (bytes_of calls) ++ later ≡ wires mp ms)
  written_prefix before {acc} {q} {calls} ms s p = (
    bytes_of (map write_of (drop 1 q)),
    ap (λ xs. xs ++ bytes_of (map write_of (drop 1 q))) new
        ∙ sym (bytes_of-append (map write_of front) (map write_of (drop 1 q)))
        ∙ ap bytes_of (sym (map-append write_of front (drop 1 q)))
        ∙ ap (λ l. bytes_of (map write_of l)) (sym (s.accepted ∙ written_first s.gone q))
        ∙ bytes_of-Packets acc ms p,
  )
    where
      front : List IoBufImp
      front = s.gone ++ in_flight q

      new : drop (length (bytes_of before)) (bytes_of calls) ≡ bytes_of (map write_of front)
      new =
          ap (λ l. drop (length (bytes_of before)) (bytes_of l)) s.written
          ∙ ap (drop (length (bytes_of before))) (bytes_of-append before (map write_of front))
          ∙ drop-append_left (bytes_of before) (bytes_of (map write_of front))

  -- The messages that the receiver has read are the first of those that were sent.
  read_prefix :
      {before : List UvCall} {acc q : List IoBufImp} {calls : List UvCall} {after : List ℕ}
      {cs : List (List ℕ)} {ns : List (MetaRpc × List ℕ)} (ms : List (MetaRpc × List ℕ))
      (rest : List ℕ)
      → IsStreaming before acc q calls
      → Packets acc ms
      → drop (length (bytes_of before)) (bytes_of calls) ≡ concat cs ++ rest
      → Reads mp [] cs ns after
      → (missing : List (MetaRpc × List ℕ)) × (ms ≡ ns ++ missing)
  read_prefix {before} {acc} {after = after} {cs} {ns} ms rest s p e r =
      let (later, whole) = written_prefix before ms s p in
      let (split, carried) = concat-wires r in
      wires_prefix mp ns ms (after ++ (rest ++ later)) carried (all_messages acc ms p) (
        sym (append_assoc (wires mp ns) after (rest ++ later))
        ∙ ap (λ xs. xs ++ (rest ++ later)) (sym split)
        ∙ sym (append_assoc (concat cs) rest later)
        ∙ ap (λ xs. xs ++ later) (sym e)
        ∙ whole)

abbrev outcome : List IoBufImp × World → Option (List IoBufImp × World) → List IoBufImp × World
outcome s none = s
outcome s (some t) = t

module _ {S : Type 0} (uv : UvQuery → World → ℤ) (client : Notice → World → Option World)
    (quiet : (n : Notice) (w : World) → client n w ≡ some w) (mp : MsgPack) (enobufs me : ℕ)
    (send_ret : ℤ) (process : MetaRpc → List ℕ → S → S) where
  -- One end is connected and has an empty queue, and its callbacks leave the connection alone; there,
  -- sends and completed writes are interleaved in any way, and each of the buffers that it accepts
  -- is valid and holds a message that fits its fields and the 16-bit lengths. The other end is up,
  -- with its receive callback installed and a valid, empty buffer that can be compacted. What it has
  -- read so far is the beginning of what the first end gave to libuv since, in reads of one to 1024
  -- bytes, each of which leaves of an unfinished message at most 3072 bytes and no more than the
  -- messages have that it completes. Then the messages that it has processed are the first of those
  -- that were accepted, once each and in that order, the connection stays up, and its buffer holds
  -- what the last read left.
  pub run-arrive_all :
      {cs : List (List ℕ)} {ns : List (MetaRpc × List ℕ)} {after : List ℕ} (es : List Event)
      (acc : List IoBufImp) (ms : List (MetaRpc × List ℕ)) (rest : List ℕ)
      (w sender receiver : World) (s : S)
      → run uv client es ([], live [] w) ≡ some (acc, sender)
      → Packets mp acc ms
      → drop (length (bytes_of w.calls)) (bytes_of sender.calls) ≡ concat cs ++ rest
      → IsValid receiver.conn.recv_buf
      → IsCompactable receiver.conn.recv_buf
      → contents receiver.conn.recv_buf ≡ []
      → Reads mp [] cs ns after
      → (missing : List (MetaRpc × List ℕ)) × (ms ≡ ns ++ missing)
        × ((w' : World) × (arrive_all uv enobufs me send_ret mp process cs
                (record { conn = up receiver; state = s })
              ≡ some (record { conn = up w'; state = process_all mp process ns s }))
            × (contents w'.conn.recv_buf ≡ after))
  run-arrive_all {cs} {ns} {after} es acc ms rest w sender receiver s went p e v k none_held r =
      let (acc', q, w', there, streaming) =
        run-IsStreaming uv client quiet w.calls es [] [] w (record {
          gone = [];
          accepted = refl;
          written = sym (append-nil w.calls);
          bounded = omega arith;
        }) in
      let same : Path (List IoBufImp × World) (acc', live q w') (acc, sender) =
        ap (outcome ([], w)) (sym there ∙ went) in
      let (missing, first) =
        read_prefix mp {before = w.calls} {acc = acc} {q = q} {calls = sender.calls} {after = after}
          {cs = cs} {ns = ns} ms rest
          (subst (λ t. IsStreaming w.calls t.0 q t.1.calls) same streaming) p e r in
      let (w1, heard, valid, left) =
        arrive_all-Reads uv enobufs me send_ret mp process receiver s v k
          (omega (arith, ap length none_held))
          (subst (λ xs. Reads mp xs cs ns after) (sym none_held) r) in
      (missing, first, (w1, heard, left))
