-- ===== src/TcpServer.antt =====
-- The listening socket: src/TcpServer.cpp.
--
-- What libuv answers is `uv`, what it is told is the list `calls`. Connections are known by numbers,
-- and `conns` holds the state of each; `conn_uv` and `conn_client` are libuv and the callbacks as
-- sdpf.TcpConnection has them. `client` is what the launch, accept and close callbacks do, `alloc`
-- the alloc callback; `told` lists what was called. `none` is undefined behaviour: a null text that
-- is copied, a pointer that was never set, or what sdpf.TcpConnection reports.
pub mod Accepting
pub mod Launching
mod Tests
use sdpf.Prelude.{
  ℕ, ◌+◌, Bool, true, false, not, Option, none, some, List, [], ◌∷◌, ◌++◌, ℤ, pos, neg, is_zero,
  is_negative, take, if◌then◌else◌, ◌==◌, ◌>>=◌,
}
use sdpf.IoScheduler.{IoSchedulerImp}
use sdpf.IoScheduler.Hosted.{Host, no_context, dispatch_task, failed_with}
use sdpf.TcpConnection.{SocketAddr}
use sdpf.TcpConnection

-- The tasks that the server posts: `on_start` and `on_stop`, bound.
pub data Task : Type 0 where
  starts : SocketAddr → Task
  stops : Task

pub data UvCall : Type 0 where
  tcp_init bind listen read_stop close_handle : UvCall
  conn_init accept : ℕ → UvCall

pub data UvQuery : Type 0 where
  ask_init ask_addr ask_bind ask_listen ask_active ask_closing ask_conn_init ask_accept : UvQuery

pub data Notice : Type 0 where
  launched : ℤ → Notice
  accepted : ℕ → ℤ → Notice
  closed : Notice

-- `server_data` says that `server_.data` points to the server; the flags ending in `cb` that a
-- callback is installed.
pub record TcpServerImp : Type 0 where
  pub context : Option (IoSchedulerImp Task)
  pub server_data : Bool
  pub started : Bool
  pub addr : SocketAddr
  pub launch_cb : Bool
  pub alloc_cb : Bool
  pub accept_cb : Bool
  pub close_cb : Bool

pub record World : Type 0 where
  pub server : TcpServerImp
  pub conns : ℕ → TcpConnection.World
  -- the next number that `make_shared<TcpConnection>` gives
  pub next_conn : ℕ
  pub calls : List UvCall
  pub told : List Notice

pub record Env : Type 0 where
  pub uv : UvQuery → World → ℤ
  pub client : Notice → World → Option World
  pub alloc : World → ℕ × World
  -- the scheduler, as a connection made by the server has it
  pub conn_context : Option (IoSchedulerImp TcpConnection.Task)
  pub conn_uv : TcpConnection.UvQuery → TcpConnection.World → ℤ
  pub conn_client : TcpConnection.Notice → TcpConnection.World → Option TcpConnection.World

-- `sizeof(SocketAddr::ip) - 1`
abbrev ip_room : ℕ
ip_room = 63

unfoldable pub create : Option (IoSchedulerImp Task) → TcpServerImp
create pctx = record {
  context = pctx;
  server_data = false;
  started = false;
  addr = record { ip = []; port = 0 };
  launch_cb = false;
  alloc_cb = false;
  accept_cb = false;
  close_cb = false;
}

abbrev pub call : UvCall → World → World
call c w = record w { calls = w.calls ++ (c ∷ []) }

abbrev pub set_started : Bool → World → World
set_started b w = record w { server = record w.server { started = b } }

abbrev pub set_conn : ℕ → TcpConnection.World → World → World
set_conn c v w = record w { conns = λ d. if c == d then v else w.conns d }

module _ (env : Env) where
  -- Calling an installed callback.
  unfoldable pub tell : Bool → Notice → World → Option World
  tell installed n w =
      if installed then env.client n (record w { told = w.told ++ (n ∷ []) }) else some w

  unfoldable pub on_close : World → Option World
  on_close w = tell w.server.close_cb closed w

  -- The callback of `uv_close`, which takes the server from `server_.data`.
  unfoldable pub handle_closed : World → Option World
  handle_closed w = if w.server.server_data then on_close w else none

  unfoldable pub on_stop : World → Option World
  on_stop w =
      if not w.server.started
      then some w
      else let off = set_started false w in
        let quiet = if is_zero (env.uv ask_active off) then off else call read_stop off in
        if is_zero (env.uv ask_closing quiet)
        then some (call close_handle quiet)
        else on_close quiet

  -- The first of the four libuv calls that fails gives the code.
  unfoldable pub start_listen : World → ℤ × World
  start_listen w =
      let w1 = call tcp_init (record w { server = record w.server { server_data = true } }) in
      let w2 = call bind w1 in
      let w3 = call listen w2 in
      if not (is_zero (env.uv ask_init w1))
      then (env.uv ask_init w1, w1)
      else if not (is_zero (env.uv ask_addr w1))
      then (env.uv ask_addr w1, w1)
      else if not (is_zero (env.uv ask_bind w2))
      then (env.uv ask_bind w2, w2)
      else (env.uv ask_listen w3, w3)

  unfoldable pub on_start : SocketAddr → World → Option World
  on_start a w =
      if w.server.started
      then some w
      else let r =
          start_listen (record w { server = record w.server { started = true; addr = a } }) in
        tell r.1.server.launch_cb (launched r.0) r.1 >>= λ w'.
        if is_zero r.0 then some w' else on_stop w'

  -- `std::make_shared<TcpConnection>(context_)`
  unfoldable pub new_conn : World → ℕ × World
  new_conn w = (
    w.next_conn,
    record (set_conn w.next_conn
        (record { conn = TcpConnection.create env.conn_context; calls = []; told = [] }) w) {
          next_conn = w.next_conn + 1;
        },
  )

  -- `uv_tcp_init` of the connection's handle, and `uv_accept`.
  unfoldable pub accept_handle : ℕ → World → ℤ × World
  accept_handle c w =
      let w1 = call (conn_init c) w in
      let w2 = call (accept c) w1 in
      if not (is_zero (env.uv ask_conn_init w1))
      then (env.uv ask_conn_init w1, w1)
      else (env.uv ask_accept w2, w2)

  unfoldable pub on_accept : ℤ → World → Option World
  on_accept status w =
      if is_negative status
      then some w
      else let made = if w.server.alloc_cb then env.alloc w else new_conn w in
        let r = accept_handle made.0 made.1 in
        TcpConnection.on_connect env.conn_uv env.conn_client r.0 (r.1.conns made.0) >>= λ v.
        tell r.1.server.accept_cb (accepted made.0 r.0) (set_conn made.0 v r.1)

  abbrev pub host : Host Task World
  host = record {
    context = λ w. w.server.context;
    keep = λ sch w. record w { server = record w.server { context = some sch } };
    run_task = λ t w. elim t [ starts a ↦ on_start a w | stops ↦ on_stop w ];
  }

  -- `none` is a null pointer, which `strncpy` reads.
  unfoldable pub start : ℕ → ℤ → Option (List ℕ) → ℕ → World → Option (ℤ × World)
  start me send_ret ip port w =
      if no_context host w
      then some (neg 1, w)
      else if w.server.started
      then some (neg 2, w)
      else ip >>= λ text. failed_with host (neg 3) (
          dispatch_task host me send_ret (starts (record { ip = take ip_room text; port = port }))
            w)

  unfoldable pub stop : ℕ → ℤ → World → Option (ℤ × World)
  stop me send_ret w =
      if no_context host w
      then some (neg 1, w)
      else if not w.server.started
      then some (neg 2, w)
      else failed_with host (neg 3) (dispatch_task host me send_ret stops w)
