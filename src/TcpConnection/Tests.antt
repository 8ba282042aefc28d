-- ===== src/TcpConnection/Tests.antt =====
-- The theorems of sdpf.TcpConnection at a quiet connection.
use sdpf.Prelude.{List, [], ◌∷◌, refl, true, false, ◌≡◌, arith, Option, some, none, pos, neg, ℤ}
use sdpf.IoBuf.{IoBufImp}
use sdpf.TcpConnection.{
  World, Notice, UvQuery, ask_connect, ask_init, ask_addr, ask_active, ask_closing, SocketAddr,
}
use sdpf.TcpConnection.Lifecycle.{stop_closes}
use sdpf.TcpConnection.{
  set_connected, close_handle, closed, on_stop, on_send, on_write, on_read, handle_closed,
}
use sdpf.TcpConnection.Sending.{arrives, done, run, live, IsStreaming, run-IsStreaming}

-- libuv answers 0, and `code` to `uv_tcp_connect`.
abbrev uv_of : ℤ → UvQuery → World → ℤ
uv_of code ask_connect w = code
uv_of code ask_init w = pos 0
uv_of code ask_addr w = pos 0
uv_of code ask_active w = pos 0
uv_of code ask_closing w = pos 0

abbrev quiet : Notice → World → Option World
quiet n w = some w

abbrev packet : IoBufImp
packet = record { buff = 1 ∷ 2 ∷ []; read_index = 0; write_index = 2 }

abbrev address : SocketAddr
address = record { ip = b'h' ∷ []; port = 80 }

abbrev world : World
world = record {
  conn = record {
    context = none;
    connected = true;
    handle_data = true;
    addr = address;
    recv_buf = packet;
    send_queue = packet ∷ [];
    conn_cb = true;
    recv_cb = true;
    send_cb = true;
    close_cb = true;
  };
  calls = [];
  told = [];
}

run-IsStreaming_example :
    (acc' : List IoBufImp) × (q' : List IoBufImp) × (w' : World) × (run
        (uv_of (pos 0))
        quiet
        (arrives packet ∷ arrives packet ∷ done ∷ [])
        ([], live [] world)
      ≡ some (acc', live q' w'))
    × IsStreaming [] acc' q' w'.calls
run-IsStreaming_example =
    run-IsStreaming (uv_of (pos 0)) quiet (λ n w. refl) []
      (arrives packet ∷ arrives packet ∷ done ∷ []) [] [] world
      (record { gone = []; accepted = refl; written = refl; bounded = omega arith })

stop_closes_example :
    (w1 w2 : World) × (on_stop (uv_of (pos 0)) quiet (set_connected true world) ≡ some w1)
    × (w1 ≡ record (set_connected false world) { calls = close_handle ∷ [] })
    × (on_send (uv_of (pos 0)) quiet packet w1 ≡ some w1)
    × (on_write (uv_of (pos 0)) quiet (pos 0) w1 ≡ some w1)
    × (on_read (uv_of (pos 0)) quiet (neg 1) w1 ≡ some w1)
    × (handle_closed (uv_of (pos 0)) quiet w1 ≡ some w2)
    × (w2.conn ≡ record world.conn { connected = false; send_queue = [] })
    × (w2.calls ≡ w1.calls)
    × (w2.told ≡ closed ∷ [])
stop_closes_example =
    stop_closes (uv_of (pos 0)) quiet (λ n w. refl) world packet (pos 0) (neg 1) (λ u. refl) refl
