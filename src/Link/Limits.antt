-- ===== src/Link/Limits.antt =====
-- What a connection cannot receive.
use sdpf.Prelude.{
  ℕ, ◌+◌, ◌-◌, ◌≤◌, ◌<◌, ◌≡◌, refl, sym, ap, ◌∙◌, false, none, some, inr, List, [], ◌∷◌, ◌++◌,
  length, arith, take, drop, length-overwrite, length-append, length-replicate, ℤ, pos, ◌>>=◌,
}
use sdpf.IoBuf.{initial_size, max_size, create, ensure_writable, writable_bytes}
use sdpf.IoBuf.Invariant.{
  IsValid, contents, create-IsValid, readable_lem, writable_lem, length-contents,
}
use sdpf.IoBuf.Space.{ensure_keeps, ensure_writable_refuses}
use sdpf.IoBuf.Overflow.{ensure_writable_overlaps}
use sdpf.IoBuf.Stream.{contents-store}
use sdpf.Dispatcher.{MsgPack, MetaRpc}
use sdpf.Frame.Receiving.{wires, AllMessages, IsCut}
use sdpf.TcpConnection.{
  World, UvQuery, ask_closing, UvCall, close_handle, set_connected, set_recv_buf, on_alloc, on_read,
}
use sdpf.TcpConnection.Lifecycle.{stop_lem}
use sdpf.Link.{alone, fill, arrive, arrive_all}
use sdpf.Link.Reading.{up, noted, stored, arrive_lem, receive_lem}

-- A connection that has received nothing yet.
abbrev pub unread : World → World
unread w = set_recv_buf (create initial_size) w

new_lem :
    (n : ℕ)
    → (length (create n).buff ≡ n) × ((create n).read_index ≡ 0) × ((create n).write_index ≡ 0)
unfolding create
new_lem n = (length-replicate {A = ℕ} n 0, refl, refl)

module _ {S : Type 0} (uv : UvQuery → World → ℤ) (enobufs me : ℕ) (send_ret : ℤ) (mp : MsgPack)
    (process : MetaRpc → List ℕ → S → S) where
  overlaps_lem :
      (c : List ℕ) (w : World) (s : S)
      → ensure_writable w.conn.recv_buf initial_size ≡ none
      → arrive uv enobufs me send_ret mp process c (record { conn = up w; state = s }) ≡ none
  unfolding arrive on_alloc
  overlaps_lem c w s e = rw e refl

  -- If the first read of a new connection, of at most 1024 bytes, holds whole messages and of the
  -- next one the beginning, and this is longer than the whole ones together, then the next read,
  -- whatever its bytes are, makes `memcpy` copy between ranges that overlap.
  pub arrive_all_overlaps :
      (ms : List (MetaRpc × List ℕ)) (tail d : List ℕ) (cs : List (List ℕ)) (w : World) (s : S)
      → AllMessages mp ms
      → IsCut mp tail
      → 0 < length (wires mp ms)
      → length (wires mp ms) < length tail
      → length (wires mp ms ++ tail) ≤ initial_size
      → arrive_all uv enobufs me send_ret mp process
          ((wires mp ms ++ tail) ∷ (d ∷ cs))
          (record { conn = up (unread w); state = s })
        ≡ none
  unfolding arrive_all
  arrive_all_overlaps ms tail d cs w s a cut p q small =
      let c = wires mp ms ++ tail in
      let b = create initial_size in
      let v : IsValid b = create-IsValid initial_size (omega arith) in
      let (long, read, written0) = new_lem initial_size in
      let enough : initial_size ≤ length b.buff - b.write_index = omega (arith, long, written0) in
      let count : length c ≡ length (wires mp ms) + length tail =
        length-append (wires mp ms) tail in
      let none_yet : b.write_index - b.read_index ≡ 0 = omega (arith, read, written0) in
      let empty : contents b ≡ [] = ap (λ n. take n (drop b.read_index b.buff)) none_yet in
      let held : contents (stored b c) ≡ c =
        contents-store b c v (omega (arith, enough)) ∙ ap (λ xs. xs ++ c) empty in
      let valid : IsValid (stored b c) =
        omega (arith, long, written0, read, length-overwrite b.buff b.write_index c) in
      let (b2, took, v2, left, end) =
        receive_lem uv enobufs me send_ret mp process ms tail (noted b c (unread w)) s valid a cut
          held in
      let after : length tail ≡ b2.write_index - b2.read_index =
        sym (ap length left) ∙ length-contents v2 ∙ readable_lem v2 in
      let filled : b2.write_index ≡ length c = omega (arith, ap (λ x. x.1) end, written0) in
      let room : length b2.buff ≡ initial_size =
        ap (λ x. length x.0) end ∙ length-overwrite b.buff b.write_index c ∙ long in
      rw
        (
          arrive_lem uv enobufs me send_ret mp process c (unread w) s b
              (ensure_keeps initial_size v enough) v (omega (arith, count)) (omega (arith, enough)),
          took,
          overlaps_lem d (set_recv_buf b2 (noted b c (unread w))) _ (
              ensure_writable_overlaps b2 initial_size v2
                (λ z. omega (arith, z, after, filled, count)) (omega (arith, after, filled, count))
                (omega (arith, room, filled, count)) (inr (omega (arith, after, small, count)))),
        )
        refl

  arrive_down :
      (c : List ℕ) (w : World) (s : S)
      → arrive uv enobufs me send_ret mp process c
          (record { conn = set_connected false w; state = s })
        ≡ some (record { conn = set_connected false w; state = s })
  unfolding arrive on_alloc fill on_read
  arrive_down c w s = refl

  -- What still comes on a connection that is down changes nothing.
  arrive_all_down :
      (cs : List (List ℕ)) (w : World) (s : S)
      → arrive_all uv enobufs me send_ret mp process cs
          (record { conn = set_connected false w; state = s })
        ≡ some (record { conn = set_connected false w; state = s })
  unfolding arrive_all
  arrive_all_down [] w s = refl
  arrive_all_down (c ∷ cs) w s = rw (arrive_down c w s) (arrive_all_down cs w s)

  arrive_full :
      (c : List ℕ) (w : World) (s : S)
      → IsValid w.conn.recv_buf
      → w.conn.recv_buf.write_index ≡ length w.conn.recv_buf.buff
      → length w.conn.recv_buf.buff
        < initial_size + (w.conn.recv_buf.write_index - w.conn.recv_buf.read_index)
      → max_size < initial_size + (w.conn.recv_buf.write_index - w.conn.recv_buf.read_index)
      → ((u : World) → uv ask_closing u ≡ pos 0)
      → (k : List UvCall) × (arrive uv enobufs me send_ret mp process c
            (record { conn = up w; state = s })
          ≡ some (record {
            conn = set_connected false (record (up w) { calls = k ++ (close_handle ∷ []) });
            state = s;
          }))
  unfolding arrive on_alloc on_read fill
  arrive_full c w s v full more over closing =
      let none_left : writable_bytes w.conn.recv_buf ≡ 0 = omega (arith, writable_lem v, full) in
      let refused =
        ensure_writable_refuses w.conn.recv_buf initial_size v more over (omega (arith, v)) in
      let (k, e) = stop_lem uv alone (λ n u. refl) (up w) closing in
      (k, rw (refused, none_left, e) refl)

  -- On a connection that is up, whose vector is filled to its end, and may not grow by 1024 bytes,
  -- while less than 1024 bytes of it have been read, the next read gets no memory from `on_alloc`:
  -- libuv reports that, the connection is stopped, and neither the bytes that wait then nor any that
  -- come later are processed. (libuv is not closing the handle already.)
  pub arrive_all_full :
      (c : List ℕ) (cs : List (List ℕ)) (w : World) (s : S)
      → IsValid w.conn.recv_buf
      → w.conn.recv_buf.write_index ≡ length w.conn.recv_buf.buff
      → length w.conn.recv_buf.buff
        < initial_size + (w.conn.recv_buf.write_index - w.conn.recv_buf.read_index)
      → max_size < initial_size + (w.conn.recv_buf.write_index - w.conn.recv_buf.read_index)
      → ((u : World) → uv ask_closing u ≡ pos 0)
      → (w' : World) × (arrive_all uv enobufs me send_ret mp process
            (c ∷ cs)
            (record { conn = up w; state = s })
          ≡ some (record { conn = set_connected false w'; state = s }))
        × (w'.conn.recv_buf ≡ w.conn.recv_buf)
  unfolding arrive_all
  arrive_all_full c cs w s v full more over closing =
      let (k, e) = arrive_full c w s v full more over closing in
      let w' = record (up w) { calls = k ++ (close_handle ∷ []) } in
      (
        w',
        ap (λ o. o >>= arrive_all uv enobufs me send_ret mp process cs) e ∙ arrive_all_down cs w' s,
        refl,
      )
