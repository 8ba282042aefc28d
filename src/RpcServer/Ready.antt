-- ===== src/RpcServer/Ready.antt =====
-- What a connection that comes in finds: its channel, and the services.
use sdpf.Prelude.{
  ℕ, ◌≡◌, refl, ap, ◌∙◌, true, some, List, [], ◌∷◌, pos, has, arith, if◌then◌else◌, ◌==◌, ==_iff,
}
use sdpf.IoBuf.{create, initial_size}
use sdpf.IoBuf.Invariant.{create-IsValid}
use sdpf.TcpConnection
use sdpf.TcpConnection.Lifecycle.{established}
use sdpf.TcpServer
use sdpf.TcpServer.{set_conn, ask_conn_init, ask_accept}
use sdpf.TcpServer.Accepting.{made, accept_handle_ok, on_accept-established}
use sdpf.RpcChannel
use sdpf.RpcChannel.Setup
use sdpf.RpcServer.{set_chan, on_alloc, on_accept, on_channel_connect}
use sdpf.RpcServer
use sdpf.RpcServer.Joined.{
  Joined, Host, new_connection, env_of, attached, attach, accept_code, on_connection,
}
use sdpf.Link.Reading.{up}
use sdpf.Link.Calling.{IsIdle}

-- The channel of a connection that was accepted.
abbrev ready : RpcServer.World → RpcChannel.World
ready w = record Setup.create {
  conn_cb = true;
  close_cb = true;
  installed = true;
  services = some w.services;
  events = RpcChannel.connected (pos 0) ∷ [];
}

on_accept_lem :
    (w : RpcServer.World)
    → on_accept (on_alloc w).0 (pos 0) (on_alloc w).1
      ≡ some (set_chan w.next_chan (ready w) (on_alloc w).1)
unfolding on_alloc on_accept has on_channel_connect Setup.accept_connect Setup.on_connect
    Setup.set_services Setup.create
on_accept_lem w = rw ((==_iff w.next_chan w.next_chan).1 refl) refl

module _ (host : Host) (k : ℕ) (j : Joined) (callbacks : j.tcp.server.alloc_cb ≡ true)
    (i : (u : TcpServer.World) → host.uv ask_conn_init u ≡ pos 0)
    (a : (u : TcpServer.World) → host.uv ask_accept u ≡ pos 0) where
  abbrev c : ℕ
  c = j.rpc.next_chan

  made_lem : made (env_of host c) j.tcp ≡ (c, set_conn c (new_connection host) j.tcp)
  made_lem = rw callbacks

  code_lem : accept_code host c j.tcp ≡ pos 0
  unfolding accept_code
  code_lem = ap (λ r. r.0) (accept_handle_ok (env_of host c) (λ n w. refl) (λ n v. refl) c _ i a)

  accepted_lem :
      (w : TcpServer.World) × (t : List TcpConnection.Notice) × (TcpServer.on_accept
          (env_of host c)
          (pos k)
          j.tcp
        ≡ some w)
      × (w.conns c ≡ record (established (new_connection host)) { told = t })
  accepted_lem =
      let (w, t, e, conns, told) =
        on_accept-established (env_of host c) (λ n w. refl) (λ n v. refl) k j.tcp i a in
      (
        w,
        t,
        e,
        ap (λ f. f c) conns
            ∙ ap
                (λ m.
                  if m.0 == c
                  then record (established (m.1.conns m.0)) { told = t }
                  else m.1.conns c)
                made_lem
            ∙ rw ((==_iff c c).1 refl) refl,
      )

  on_connection_lem :
      (w : TcpServer.World)
      → TcpServer.on_accept (env_of host c) (pos k) j.tcp ≡ some w
      → on_connection host (pos k) j
        ≡ some (attach c w (set_chan c (ready j.rpc) (on_alloc j.rpc).1))
  unfolding on_connection on_alloc
  on_connection_lem w e =
      let r = set_chan c (ready j.rpc) (on_alloc j.rpc).1 in
      rw (e, code_lem, on_accept_lem j.rpc)
        (ap (λ b. if b then some (attach c w r) else some (record j { tcp = w })) callbacks)

  -- What is left where an accepted connection and its channel have been attached to each other.
  pub record Ready (j' : Joined) : Type 0 where
    pub conn : TcpConnection.World
    -- the connection is up, its callbacks are the channel's, and it has received nothing
    pub is_up : j'.tcp.conns c ≡ up conn
    pub idle : IsIdle conn
    -- the channel is in the server's set, connected, and has the server's services
    pub channels : j'.rpc.channels ≡ c ∷ j.rpc.channels
    pub connected : (j'.rpc.chans c).conn ≡ some true
    pub services : (j'.rpc.chans c).services ≡ some j.rpc.services
    pub requests : (j'.rpc.chans c).requests ≡ []

  -- When a connection comes in at a server whose callbacks are installed, and libuv accepts it,
  -- nothing undefined is done: the connection is up, calls the channel back, and has an empty
  -- buffer; its channel, with the same number, is one more in the server's set, is connected, has
  -- the server's services, and no requests.
  pub on_connection-Ready : (j' : Joined) × (on_connection host (pos k) j ≡ some j') × Ready j'
  unfolding attach on_alloc Setup.create TcpConnection.create create
  on_connection-Ready =
      let (w, t, e, at) = accepted_lem in
      let r = set_chan c (ready j.rpc) (on_alloc j.rpc).1 in
      let chan : r.chans c ≡ ready j.rpc = rw ((==_iff c c).1 refl) refl in
      let tcp : (attach c w r).tcp.conns c ≡ attached (r.chans c) (w.conns c) =
        rw ((==_iff c c).1 refl) refl in
      let rpc : (attach c w r).rpc.chans c
          ≡ record (r.chans c) { conn = some (w.conns c).conn.connected } =
        rw ((==_iff c c).1 refl) refl in
      (
        attach c w r,
        on_connection_lem w e,
        record {
          conn = attached (ready j.rpc) (record (established (new_connection host)) { told = t });
          is_up = tcp ∙ (λ x. attached (chan x) (at x));
          idle = record { valid = create-IsValid initial_size (omega arith); empty = refl };
          channels = refl;
          connected = ap (λ v. v.conn) rpc ∙ ap (λ u. some u.conn.connected) at;
          services = ap (λ v. v.services) rpc ∙ ap (λ v. v.services) chan;
          requests = ap (λ v. v.requests) rpc ∙ ap (λ v. v.requests) chan;
        },
      )
