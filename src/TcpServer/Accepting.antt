-- ===== src/TcpServer/Accepting.antt =====
-- A connection that comes in, accepted or not.
use sdpf.Prelude.{
  ℕ, ◌≡◌, refl, ap, ◌∙◌, Bool, true, false, none, some, List, [], ◌∷◌, ◌++◌, ℤ, pos, is_zero,
  if◌then◌else◌, ◌==◌, ==_iff, ◌>>=◌, arith,
}
use sdpf.TcpConnection
use sdpf.TcpConnection.Lifecycle.{established, connect_lem, failed_lem}
use sdpf.TcpServer.{
  World, Env, Notice, accepted, conn_init, accept, ask_conn_init, ask_accept, call, set_conn, tell,
  new_conn, accept_handle, on_accept,
}

-- The connection that is made for the newcomer, and the server's world with it.
abbrev pub made : Env → World → ℕ × World
made env w = if w.server.alloc_cb then env.alloc w else new_conn env w

module _ (env : Env) (quiet : (n : Notice) (w : World) → env.client n w ≡ some w)
    (calm : (n : TcpConnection.Notice) (v : TcpConnection.World)
      → env.conn_client n v ≡ some v) where
  told_by :
      (f : Bool) (n : Notice) (w : World)
      → tell env f n w ≡ some (record w { told = if f then w.told ++ (n ∷ []) else w.told })
  unfolding tell
  told_by true n w = quiet n _
  told_by false n w = refl

  -- What the server's world is after the connection `c` has become `v`.
  abbrev after : ℕ → ℤ → TcpConnection.World → World → World
  after c code v w = record (set_conn c v w) {
    told = if w.server.accept_cb then w.told ++ (accepted c code ∷ []) else w.told;
  }

  -- `on_accept`, from the outcome of `uv_accept` and of the connection's `on_connect`.
  accept_lem :
      (k : ℕ) (w : World) (r : ℤ × World) (v : TcpConnection.World)
      → accept_handle env (made env w).0 (made env w).1 ≡ r
      → TcpConnection.on_connect env.conn_uv env.conn_client r.0 (r.1.conns (made env w).0) ≡ some v
      → on_accept env (pos k) w ≡ some (after (made env w).0 r.0 v r.1)
  unfolding on_accept
  accept_lem k w r v h e =
      let c = (made env w).0 in
      ap
        (λ s. TcpConnection.on_connect env.conn_uv env.conn_client s.0 (s.1.conns c) >>= λ u.
          tell env s.1.server.accept_cb (accepted c s.0) (set_conn c u s.1))
        h
      ∙ ap (λ o. o >>= λ u. tell env r.1.server.accept_cb (accepted c r.0) (set_conn c u r.1)) e
      ∙ told_by r.1.server.accept_cb (accepted c r.0) (set_conn c v r.1)

  pub accept_handle_ok :
      (c : ℕ) (w : World)
      → ((u : World) → env.uv ask_conn_init u ≡ pos 0)
      → ((u : World) → env.uv ask_accept u ≡ pos 0)
      → accept_handle env c w ≡ (pos 0, call (accept c) (call (conn_init c) w))
  unfolding accept_handle
  accept_handle_ok c w i a =
      rw (i (call (conn_init c) w)) (rw (a (call (accept c) (call (conn_init c) w))) refl)

  accept_handle-conns : (c : ℕ) (w : World) → (accept_handle env c w).1.conns ≡ w.conns
  unfolding accept_handle
  accept_handle-conns c w = ground arith

  -- An accepted connection reads, its handle points to it, and the accept callback, if there is
  -- one, is called once with it and 0; no other connection changes. (`uv_tcp_init` and `uv_accept`
  -- answer 0, and the callbacks leave the server and the connection alone.)
  pub on_accept-established :
      (k : ℕ) (w : World)
      → ((u : World) → env.uv ask_conn_init u ≡ pos 0)
      → ((u : World) → env.uv ask_accept u ≡ pos 0)
      → (w' : World) × (t : List TcpConnection.Notice) × (on_accept env (pos k) w ≡ some w')
        × (w'.conns ≡ λ d.
            if (made env w).0 == d
            then record (established ((made env w).1.conns (made env w).0)) { told = t }
            else (made env w).1.conns d)
        × (w'.told ≡ (
            if (made env w).1.server.accept_cb
            then (made env w).1.told ++ (accepted (made env w).0 (pos 0) ∷ [])
            else (made env w).1.told))
  on_accept-established k w i a =
      let c = (made env w).0 in
      let w1 = (made env w).1 in
      (
        _,
        _,
        accept_lem k w _ _ (accept_handle_ok c w1 i a)
            (connect_lem env.conn_uv env.conn_client calm (w1.conns c)),
        refl,
        refl,
      )

  -- A connection that the server makes itself has no pointer in its handle.
  new_conn-unset :
      (w : World)
      → w.server.alloc_cb ≡ false
      → ((made env w).1.conns (made env w).0).conn.handle_data ≡ false
  unfolding new_conn TcpConnection.create
  new_conn-unset w own =
      ap
        (λ b. let m = if b then env.alloc w else new_conn env w in (m.1.conns m.0).conn.handle_data)
        own
      ∙ ap (λ b. (if b then fresh else w.conns w.next_conn).conn.handle_data)
          ((==_iff w.next_conn w.next_conn).1 refl)
    where
      fresh : TcpConnection.World
      fresh = record { conn = TcpConnection.create env.conn_context; calls = []; told = [] }

  -- If `uv_tcp_init` or `uv_accept` fails for a connection that the server makes itself, no alloc
  -- callback being installed, then the last thing that libuv is told of the connection's handle is
  -- `uv_close`, and when it calls the close callback for it, the connection is taken from the
  -- pointer in the handle, which was never set. (The handle is not closing before, and the callbacks
  -- leave the server and the connection alone.)
  pub on_accept-crashes :
      (k : ℕ) (w : World)
      → is_zero (accept_handle env (made env w).0 (made env w).1).0 ≡ false
      → w.server.alloc_cb ≡ false
      → ((u : TcpConnection.World) → env.conn_uv TcpConnection.ask_closing u ≡ pos 0)
      → (w' : World) × (cs : List TcpConnection.UvCall) × (on_accept env (pos k) w ≡ some w')
        × ((w'.conns (made env w).0).calls ≡ cs ++ (TcpConnection.close_handle ∷ []))
        × (TcpConnection.handle_closed env.conn_uv env.conn_client (w'.conns (made env w).0) ≡ none)
  unfolding TcpConnection.handle_closed
  on_accept-crashes k w f own closing =
      let c = (made env w).0 in
      let r = accept_handle env c (made env w).1 in
      let (cs, t, e) = failed_lem env.conn_uv env.conn_client calm r.0 (r.1.conns c) f closing in
      let v = record (r.1.conns c) {
        conn = record (r.1.conns c).conn { connected = false };
        calls = cs ++ (TcpConnection.close_handle ∷ []);
        told = t;
      } in
      (
        _,
        cs,
        accept_lem k w r v refl e,
        ap (λ b. (if b then v else r.1.conns c).calls) ((==_iff c c).1 refl),
        ap
              (λ b.
                TcpConnection.handle_closed env.conn_uv env.conn_client
                  (if b then v else r.1.conns c))
              ((==_iff c c).1 refl)
            ∙ ap (λ b. if b then TcpConnection.on_close env.conn_uv env.conn_client v else none)
                (ap (λ cn. (cn c).conn.handle_data) (accept_handle-conns c (made env w).1)
                  ∙ new_conn-unset w own),
      )
