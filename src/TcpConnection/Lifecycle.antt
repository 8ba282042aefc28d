-- ===== src/TcpConnection/Lifecycle.antt =====
-- The start and the end of a connection, and what is received in between.
use sdpf.Prelude.{
  append_assoc, ◌≡◌, refl, ◌∙◌, ap, Bool, true, false, Option, none, some, List, [], ◌∷◌, ◌++◌, ℤ,
  pos, negsuc, Bool-cases, inl, inr, is_zero, arith, ◌>>=◌, if◌then◌else◌,
}
use sdpf.IoBuf.{IoBufImp}
use sdpf.TcpConnection.{
  World, Notice, UvQuery, UvCall, SocketAddr, connected_with, call, set_connected, on_start,
  start_connect, on_connect, on_stop, on_close, handle_closed, clear_buf, tell, ask_active,
  ask_closing, close_handle, read_stop, closed, tcp_nodelay, read_start, on_send, on_write, on_read,
  on_alloc,
}

-- A connection that was never up.
abbrev pub fresh : World → World
fresh w = record w { conn = record w.conn { connected = false; handle_data = false } }

-- What `on_start` asks libuv in.
abbrev pub begun : SocketAddr → World → World
begun a w = record w { conn = record w.conn { connected = true; handle_data = false; addr = a } }

-- A connection that reads, and whose handle points to it.
abbrev pub established : World → World
established w = record w {
  conn = record w.conn { connected = true; handle_data = true };
  calls = (w.calls ++ (tcp_nodelay ∷ [])) ++ (read_start ∷ []);
}

module _ (uv : UvQuery → World → ℤ) (client : Notice → World → Option World)
    (quiet : (n : Notice) (w : World) → client n w ≡ some w) where
  told_by :
      (f : Bool) (n : Notice) (w : World)
      → tell uv client f n w ≡ some (record w { told = if f then w.told ++ (n ∷ []) else w.told })
  unfolding tell
  told_by true n w = quiet n _
  told_by false n w = refl

  -- Once the connection is down, what is sent, and whatever libuv still reports, changes nothing.
  pub stopped_ignores :
      (w : World) (b : IoBufImp) (status nread : ℤ)
      → (on_send uv client b (set_connected false w) ≡ some (set_connected false w))
        × (on_write uv client status (set_connected false w) ≡ some (set_connected false w))
        × (on_read uv client nread (set_connected false w) ≡ some (set_connected false w))
        × (on_stop uv client (set_connected false w) ≡ some (set_connected false w))
        × (on_alloc uv client (set_connected false w) ≡ some (none, set_connected false w))
  unfolding on_send on_write on_read on_stop on_alloc
  stopped_ignores w b status (pos n) = (refl, refl, refl, refl, refl)
  stopped_ignores w b status (negsuc n) = (refl, refl, refl, refl, refl)

  -- `on_stop` takes the connection down and asks libuv to close the handle.
  pub stop_lem :
      (w : World)
      → ((v : World) → uv ask_closing v ≡ pos 0)
      → (c : List UvCall) × (on_stop uv client (set_connected true w)
          ≡ some (record (set_connected false w) { calls = c ++ (close_handle ∷ []) }))
  unfolding on_stop
  stop_lem w c = elim (Bool-cases (is_zero (uv ask_active (set_connected false w)))) [
    | inl q ↦ (w.calls, rw (q, c (set_connected false w)) refl)
    | inr q ↦ (w.calls ++ (read_stop ∷ []), rw (q, c (call read_stop (set_connected false w))) refl)
  ]

  -- What `on_stop` tells libuv: to read no more, if the handle is active, and to close it.
  abbrev pub stop_calls : World → List UvCall
  stop_calls w =
      if is_zero (uv ask_active (set_connected false w))
      then close_handle ∷ []
      else read_stop ∷ (close_handle ∷ [])

  on_stop_lem :
      (w : World)
      → ((v : World) → uv ask_closing v ≡ pos 0)
      → on_stop uv client (set_connected true w)
        ≡ some (record (set_connected false w) { calls = w.calls ++ stop_calls w })
  unfolding on_stop
  on_stop_lem w c =
      let off = set_connected false w in
      elim (Bool-cases (is_zero (uv ask_active off))) [
        | inl q ↦ rw (q, c off) refl
        | inr q ↦
            rw (q, c (call read_stop off))
              (ap (λ l. some (record off { calls = l }))
                (append_assoc w.calls (read_stop ∷ []) (close_handle ∷ [])))
      ]

  -- A connection that is up, whose handle points to it and is not closing, and whose callbacks leave
  -- it alone, is stopped: it is down at once, libuv is told to read no more, if it says that the
  -- handle is active, and to close it, and nothing else, and no callback is called. A buffer that is
  -- sent, or a write or read that libuv reports until it has closed the handle, changes nothing. When
  -- it calls the callback for that, the queue is emptied, the rest of the connection stays as it is,
  -- and the close callback, where one is installed, is called once.
  pub stop_closes :
      (w : World) (b : IoBufImp) (status nread : ℤ)
      → ((u : World) → uv ask_closing u ≡ pos 0)
      → w.conn.handle_data ≡ true
      → (w1 w2 : World) × (on_stop uv client (set_connected true w) ≡ some w1)
        × (w1 ≡ record (set_connected false w) { calls = w.calls ++ stop_calls w })
        × (on_send uv client b w1 ≡ some w1)
        × (on_write uv client status w1 ≡ some w1)
        × (on_read uv client nread w1 ≡ some w1)
        × (handle_closed uv client w1 ≡ some w2)
        × (w2.conn ≡ record w.conn { connected = false; send_queue = [] })
        × (w2.calls ≡ w1.calls)
        × (w2.told ≡ (if w.conn.close_cb then w.told ++ (closed ∷ []) else w.told))
  unfolding handle_closed on_close clear_buf
  stop_closes w b status nread c h =
      let v = record (set_connected false w) { calls = w.calls ++ stop_calls w } in
      let (sends, writes, reads, again, room) = stopped_ignores v b status nread in
      (
        v,
        _,
        on_stop_lem w c,
        refl,
        sends,
        writes,
        reads,
        ap (λ b. if b then on_close uv client v else none) h
            ∙ told_by w.conn.close_cb closed (clear_buf v),
        refl,
        refl,
        refl,
      )

  fails :
      (r : ℤ) (w : World)
      → is_zero r ≡ false
      → on_connect uv client r w ≡ (
          tell uv client w.conn.conn_cb (connected_with r) (set_connected true w)
          >>= on_stop uv client)
  unfolding on_connect
  fails r w f = rw f refl

  -- Where libuv has connected the handle, it is told to read.
  pub connect_lem :
      (w : World)
      → on_connect uv client (pos 0) w
        ≡ some (record (established w) {
          told = if w.conn.conn_cb then w.told ++ (connected_with (pos 0) ∷ []) else w.told;
        })
  unfolding on_connect
  connect_lem w = told_by w.conn.conn_cb (connected_with (pos 0)) (established w)

  -- A failed attempt ends in `on_stop`, which asks libuv to close the handle.
  pub failed_lem :
      (r : ℤ) (w : World)
      → is_zero r ≡ false
      → ((u : World) → uv ask_closing u ≡ pos 0)
      → (cs : List UvCall) × (t : List Notice) × (on_connect uv client r w
          ≡ some (record (set_connected false w) { calls = cs ++ (close_handle ∷ []); told = t }))
  failed_lem r w f c =
      let told = if w.conn.conn_cb then w.told ++ (connected_with r ∷ []) else w.told in
      let (cs, e) = stop_lem (record w { told = told }) c in
      (
        _,
        _,
        fails r w f
            ∙ ap (λ o. o >>= on_stop uv client)
                (told_by w.conn.conn_cb (connected_with r) (set_connected true w))
            ∙ e,
      )

  starting : (a : SocketAddr) (u : World) → (start_connect uv client a u).1.conn ≡ u.conn
  unfolding start_connect
  starting a u = ground arith

  -- If one of libuv's three calls of `on_start` fails on a connection that was never established,
  -- and whose callbacks leave it alone, the close callback that follows takes the connection from
  -- a pointer that was never set.
  pub start_failure_crashes :
      (a : SocketAddr) (w : World)
      → is_zero (start_connect uv client a (begun a w)).0 ≡ false
      → ((u : World) → uv ask_closing u ≡ pos 0)
      → (on_start uv client a (fresh w) >>= handle_closed uv client) ≡ none
  unfolding on_start handle_closed
  start_failure_crashes a w f c =
      let r = start_connect uv client a (begun a w) in
      let (cs, t, e) = failed_lem r.0 r.1 f c in
      ap (λ b. (if b then some r.1 else on_connect uv client r.0 r.1) >>= handle_closed uv client) f
      ∙ ap (λ o. o >>= handle_closed uv client) e
      ∙ ap
          (λ k.
            if k.handle_data
            then on_close uv client
                (record (set_connected false r.1) { calls = cs ++ (close_handle ∷ []); told = t })
            else none)
          (starting a (begun a w))
