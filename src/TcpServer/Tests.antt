-- ===== src/TcpServer/Tests.antt =====
-- The theorems of sdpf.TcpServer at a server whose callbacks do nothing.
use sdpf.Prelude.{◌≡◌, refl, true, false, ℤ, pos, neg, is_zero, some, none, List, [], ◌∷◌, ◌++◌}
use sdpf.TcpConnection
use sdpf.TcpConnection.{SocketAddr}
use sdpf.TcpServer.{
  World, Env, UvQuery, ask_init, ask_addr, ask_bind, ask_listen, ask_active, ask_closing,
  ask_conn_init, ask_accept, create, accept_handle, on_accept,
}
use sdpf.TcpServer.Accepting.{made, on_accept-crashes}

-- libuv answers 0, and `code` to `uv_accept` and `uv_listen`.
abbrev answers : ℤ → UvQuery → World → ℤ
answers code ask_init w = pos 0
answers code ask_addr w = pos 0
answers code ask_bind w = pos 0
answers code ask_listen w = code
answers code ask_active w = pos 0
answers code ask_closing w = pos 0
answers code ask_conn_init w = pos 0
answers code ask_accept w = code

abbrev env_of : ℤ → Env
env_of code = record {
  uv = answers code;
  client = λ n w. some w;
  alloc = λ w. (0, w);
  conn_context = none;
  conn_uv = λ q v. pos 0;
  conn_client = λ n v. some v;
}

abbrev world : World
world = record {
  server = record (create none) { launch_cb = true; accept_cb = true; close_cb = true };
  conns = λ c. record { conn = TcpConnection.create none; calls = []; told = [] };
  next_conn = 4;
  calls = [];
  told = [];
}

refused :
    is_zero
      (accept_handle
        (env_of (neg 1))
        (made (env_of (neg 1)) world).0
        (made (env_of (neg 1)) world).1).0
    ≡ false
unfolding accept_handle
refused = refl

on_accept-crashes_example :
    (w' : World) × (cs : List TcpConnection.UvCall) × (on_accept (env_of (neg 1)) (pos 0) world
      ≡ some w')
    × ((w'.conns (made (env_of (neg 1)) world).0).calls ≡ cs ++ (TcpConnection.close_handle ∷ []))
    × (TcpConnection.handle_closed
          (env_of (neg 1)).conn_uv
          (env_of (neg 1)).conn_client
          (w'.conns (made (env_of (neg 1)) world).0)
        ≡ none)
unfolding create
on_accept-crashes_example =
    on_accept-crashes (env_of (neg 1)) (λ n w. refl) (λ n v. refl) 0 world refused refl (λ u. refl)
