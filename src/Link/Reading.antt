-- ===== src/Link/Reading.antt =====
-- What one read does, and what the messages are that a connection takes out of all its reads.
use sdpf.Prelude.{
  ℕ, zero, suc, ◌+◌, ◌-◌, ◌≤◌, ◌<◌, ◌≡◌, refl, ap, ◌∙◌, true, some, List, [], ◌∷◌, ◌++◌, length,
  overwrite, length-overwrite, length-append, take_all, lt→==_false, arith, ℤ, pos,
}
use sdpf.IoBuf.{
  IoBufImp, initial_size, readable_bytes, writable_bytes, ensure_writable, has_written,
}
use sdpf.IoBuf.Invariant.{IsValid, contents, readable_lem, writable_lem, length-contents}
use sdpf.IoBuf.Space.{Fits, IsSafe, ensure_writable_grants}
use sdpf.IoBuf.Stream.{memcpy_in_lem, has_written_lem, contents-store}
use sdpf.Dispatcher.{MsgPack, MetaRpc}
use sdpf.Frame.Receiving.{wires, AllMessages, IsCut, process_all, on_recv-wires}
use sdpf.Frame.Indices.{written, on_recv-written}
use sdpf.TcpConnection.{World, UvQuery, received, set_recv_buf, tell, on_alloc, on_read}
use sdpf.Link.{alone, fill, receive, arrive}

-- A connection that is up, with its receive callback installed.
abbrev pub up : World → World
up w = record w { conn = record w.conn { connected = true; recv_cb = true } }

-- The buffer with the bytes behind those that it holds.
abbrev pub stored : IoBufImp → List ℕ → IoBufImp
stored b c = record b {
  buff = overwrite b.buff b.write_index c;
  write_index = b.write_index + length c;
}

-- The connection when its receive callback is called.
abbrev pub noted : IoBufImp → List ℕ → World → World
noted b c w = record (set_recv_buf (stored b c) w) { told = w.told ++ (received (length c) ∷ []) }

-- The bytes are in the vector, and not counted yet.
abbrev copied : IoBufImp → List ℕ → IoBufImp
copied b c = record b { buff = overwrite b.buff b.write_index c }

fill_lem :
    (enobufs : ℕ) (c : List ℕ) (w : World) (room : ℕ)
    → 0 < room
    → w.conn.recv_buf.write_index + length c ≤ length w.conn.recv_buf.buff
    → fill enobufs (some (w.conn.recv_buf.write_index, room)) c w
      ≡ some (pos (length c), set_recv_buf (copied w.conn.recv_buf c) w)
unfolding fill
fill_lem enobufs c w zero h k = elim h [ ]
fill_lem enobufs c w (suc room) h k = rw (
  memcpy_in_lem w.conn.recv_buf.buff w.conn.recv_buf.write_index c (length c) k (omega arith),
  take_all (length c) c (omega arith),
)

module _ (uv : UvQuery → World → ℤ) where
  on_alloc_lem :
      (w : World) (b : IoBufImp)
      → ensure_writable w.conn.recv_buf initial_size ≡ some (pos 0, b)
      → on_alloc uv alone (up w)
        ≡ some (some (b.write_index, writable_bytes b), set_recv_buf b (up w))
  unfolding on_alloc
  on_alloc_lem w b e = rw e

  on_read_lem :
      (w : World) (n : ℕ) (b : IoBufImp)
      → 0 < n
      → has_written w.conn.recv_buf n ≡ (pos 0, b)
      → on_read uv alone (pos n) (up w)
        ≡ some (record (set_recv_buf b (up w)) { told = w.told ++ (received n ∷ []) })
  unfolding on_read tell
  on_read_lem w n b h e = rw (e, lt→==_false n h) refl

module _ {S : Type 0} (uv : UvQuery → World → ℤ) (enobufs me : ℕ) (send_ret : ℤ) (mp : MsgPack)
    (process : MetaRpc → List ℕ → S → S) where
  -- A read whose bytes fit the room that was made gives them to the channel.
  pub arrive_lem :
      (c : List ℕ) (w : World) (s : S) (b : IoBufImp)
      → ensure_writable w.conn.recv_buf initial_size ≡ some (pos 0, b)
      → IsValid b
      → 0 < length c
      → length c ≤ length b.buff - b.write_index
      → arrive uv enobufs me send_ret mp process c (record { conn = up w; state = s })
        ≡ receive uv enobufs me send_ret mp process (record { conn = up (noted b c w); state = s })
  unfolding arrive
  arrive_lem c w s b e v p h =
      let fits : has_written (copied b c) (length c) ≡ (pos 0, stored b c) =
        has_written_lem (length c) (omega (arith, length-overwrite b.buff b.write_index c))
          (omega (arith, length-overwrite b.buff b.write_index c)) in
      rw
        (
          on_alloc_lem uv w b e,
          fill_lem enobufs c (set_recv_buf b (up w)) (writable_bytes b)
              (omega (arith, writable_lem v)) (omega (arith, v)),
          on_read_lem uv (set_recv_buf (copied b c) w) (length c) (stored b c) p fits,
          lt→==_false (length c) p,
        )
        refl

  -- The channel takes the whole messages out of the buffer, and leaves what is behind them.
  pub receive_lem :
      (ms : List (MetaRpc × List ℕ)) (tail : List ℕ) (w : World) (s : S)
      → IsValid w.conn.recv_buf
      → AllMessages mp ms
      → IsCut mp tail
      → contents w.conn.recv_buf ≡ wires mp ms ++ tail
      → (b : IoBufImp) × (receive uv enobufs me send_ret mp process
            (record { conn = up w; state = s })
          ≡ some (record { conn = up (set_recv_buf b w); state = process_all mp process ms s }))
        × IsValid b
        × (contents b ≡ tail)
        × (written b ≡ written w.conn.recv_buf)
  unfolding receive
  receive_lem ms tail w s v a c e =
      let (r, run, state, going, left, valid) =
        on_recv-wires mp process ms tail (readable_bytes w.conn.recv_buf + 1) w.conn.recv_buf s v a
          c e (omega arith) in
      (
        r.buffer,
        rw (run, going, state) refl,
        valid,
        left,
        on_recv-written mp process (readable_bytes w.conn.recv_buf + 1) w.conn.recv_buf s r run,
      )

  -- One read, from its bytes to the messages: where `ensure_writable` has made room, the messages
  -- that are whole now are processed, and the end of the buffer tells how many bytes it held.
  pub arrive-wires :
      (c : List ℕ) (ms : List (MetaRpc × List ℕ)) (tail : List ℕ) (w : World) (s : S)
      → IsValid w.conn.recv_buf
      → IsSafe w.conn.recv_buf initial_size
      → Fits w.conn.recv_buf initial_size
      → 0 < length c
      → length c ≤ initial_size
      → AllMessages mp ms
      → IsCut mp tail
      → contents w.conn.recv_buf ++ c ≡ wires mp ms ++ tail
      → (w' : World) × (arrive uv enobufs me send_ret mp process c
            (record { conn = up w; state = s })
          ≡ some (record { conn = up w'; state = process_all mp process ms s }))
        × IsValid w'.conn.recv_buf
        × (contents w'.conn.recv_buf ≡ tail)
        × (length (wires mp ms) ≤ w'.conn.recv_buf.read_index)
  arrive-wires c ms tail w s v safe fits p small a cut e =
      let (b, granted, g) = ensure_writable_grants w.conn.recv_buf initial_size v safe fits in
      let enough : length c ≤ length b.buff - b.write_index = omega (arith, g.room) in
      let held : contents (stored b c) ≡ wires mp ms ++ tail =
        contents-store b c g.valid enough ∙ ap (λ xs. xs ++ c) g.same ∙ e in
      let valid : IsValid (stored b c) =
        omega (arith, g.valid, enough, length-overwrite b.buff b.write_index c) in
      let (b2, taken, v2, left, end) = receive_lem ms tail (noted b c w) s valid a cut held in
      (
        set_recv_buf b2 (noted b c w),
        arrive_lem c w s b granted g.valid p enough ∙ taken,
        v2,
        left,
        omega (
          arith,
          ap (λ x. x.1) end,
          readable_lem valid,
          length-contents valid,
          ap length held,
          length-append (wires mp ms) tail,
          readable_lem v2,
          length-contents v2,
          ap length left,
        ),
      )
