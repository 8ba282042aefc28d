-- ===== src/Link/Streaming.antt =====
-- A connection over many reads, with the buffer that it really has.
use sdpf.Prelude.{
  ℕ, ◌+◌, ◌≤◌, ◌<◌, ◌≡◌, refl, sym, ap, ◌∙◌, some, inl, inr, ◌-◌, List, [], ◌∷◌, ◌++◌, length,
  arith, ℤ, ◌>>=◌,
}
use sdpf.IoBuf.{initial_size, max_size}
use sdpf.IoBuf.Invariant.{IsValid, contents, readable_lem, length-contents}
use sdpf.IoBuf.Compact.{IsCompactable}
use sdpf.Dispatcher.{MsgPack, MetaRpc}
use sdpf.Frame.Receiving.{wires, AllMessages, IsCut, process_all, process_all-append}
use sdpf.TcpConnection.{World, UvQuery}
use sdpf.Link.{arrive_all}
use sdpf.Link.Reading.{up, arrive-wires}

abbrev pub concat : List (List ℕ) → List ℕ
concat [] = []
concat (c ∷ cs) = c ++ concat cs

-- The reads of a stream, the first where `held` was left of an unfinished message, with the messages
-- that they complete. Each has at most 1024 bytes, and leaves no more of an unfinished message than
-- the messages have that it completes.
pub data Reads (mp : MsgPack)
    : List ℕ → List (List ℕ) → List (MetaRpc × List ℕ) → List ℕ → Type 0 where
  no_reads : {held : List ℕ} → Reads mp held [] [] held
  one_read :
      {held c tail after : List ℕ} {cs : List (List ℕ)} {ns : List (MetaRpc × List ℕ)}
      (ms : List (MetaRpc × List ℕ))
      → 0 < length c
      → length c ≤ initial_size
      → AllMessages mp ms
      → IsCut mp tail
      → held ++ c ≡ wires mp ms ++ tail
      → length tail ≤ length (wires mp ms)
      → length tail + initial_size ≤ max_size
      → Reads mp tail cs ns after
      → Reads mp held (c ∷ cs) (ms ++ ns) after

module _ {S : Type 0} (uv : UvQuery → World → ℤ) (enobufs me : ℕ) (send_ret : ℤ) (mp : MsgPack)
    (process : MetaRpc → List ℕ → S → S) where
  reads_lem :
      {cs : List (List ℕ)} {ms : List (MetaRpc × List ℕ)} {held after : List ℕ} (w : World) (s : S)
      → IsValid w.conn.recv_buf
      → IsCompactable w.conn.recv_buf
      → length held + initial_size ≤ max_size
      → contents w.conn.recv_buf ≡ held
      → Reads mp held cs ms after
      → (w' : World) × (arrive_all uv enobufs me send_ret mp process cs
            (record { conn = up w; state = s })
          ≡ some (record { conn = up w'; state = process_all mp process ms s }))
        × IsValid w'.conn.recv_buf
        × (contents w'.conn.recv_buf ≡ after)
  unfolding arrive_all
  reads_lem w s v k room e no_reads = (w, refl, v, e)
  reads_lem w s v k room e
        (one_read {held} {c} {tail} {cs = cs} {ns} ms p small a cut whole more fits rest) =
      let count : length held ≡ w.conn.recv_buf.write_index - w.conn.recv_buf.read_index =
        sym (ap length e) ∙ length-contents v ∙ readable_lem v in
      let (w1, took, v1, left, front) =
        arrive-wires uv enobufs me send_ret mp process c ms tail w s v (inl k)
          (inr (omega (arith, count))) p small a cut (ap (λ xs. xs ++ c) e ∙ whole) in
      let back : w1.conn.recv_buf.write_index - w1.conn.recv_buf.read_index ≡ length tail =
        sym (length-contents v1 ∙ readable_lem v1) ∙ ap length left in
      let (w2, run, v2, last) =
        reads_lem w1 (process_all mp process ms s) v1 (inr (omega (arith, back, more, front))) fits
          left rest in
      (
        w2,
        ap (λ o. o >>= arrive_all uv enobufs me send_ret mp process cs) took
            ∙ run
            ∙ ap (λ t. some (record { conn = up w2; state = t }))
                (sym (process_all-append mp process ms ns s)),
        v2,
        last,
      )

  -- On a connection that is up, with its receive callback installed, and whose buffer can be
  -- compacted: if each read has one to 1024 bytes, and leaves of an unfinished message at most 3072
  -- bytes and no more than the messages have that it completes, then the reads are taken in one
  -- after the other without undefined behaviour, exactly the messages of the stream are processed,
  -- once each and in order, the connection stays up, and the buffer holds what the last read left.
  pub arrive_all-Reads :
      {cs : List (List ℕ)} {ms : List (MetaRpc × List ℕ)} {after : List ℕ} (w : World) (s : S)
      → IsValid w.conn.recv_buf
      → IsCompactable w.conn.recv_buf
      → length (contents w.conn.recv_buf) + initial_size ≤ max_size
      → Reads mp (contents w.conn.recv_buf) cs ms after
      → (w' : World) × (arrive_all uv enobufs me send_ret mp process cs
            (record { conn = up w; state = s })
          ≡ some (record { conn = up w'; state = process_all mp process ms s }))
        × IsValid w'.conn.recv_buf
        × (contents w'.conn.recv_buf ≡ after)
  arrive_all-Reads w s v k room r = reads_lem w s v k room refl r
