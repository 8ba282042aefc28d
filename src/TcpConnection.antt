-- ===== src/TcpConnection.antt =====
-- One connection: src/TcpConnection.cpp.
--
-- What libuv answers is `uv`, what it is told is the list `calls`; a request that libuv takes over is
-- answered by a later call of `on_write`, `on_read` or `handle_closed`. The installed callbacks are
-- `client`, which may do anything to the world; `told` lists what they were called with. `none` is
-- undefined behaviour: the front of an empty queue, a pointer that was never set, or what
-- sdpf.IoBuf reports.
pub mod Calls
pub mod Sending
pub mod Lifecycle
pub mod Posting
mod Tests
use sdpf.Prelude.{
  ℕ, Bool, true, false, not, ◌||◌, Option, none, some, List, [], ◌∷◌, ◌++◌, ℤ, pos, neg, is_zero,
  is_positive, if◌then◌else◌, ◌==◌, length, take, leb, ◌>>=◌, zero, suc, negsuc,
}
use sdpf.IoBuf.{
  IoBufImp, initial_size, readable_bytes, begin_read, writable_bytes, ensure_writable, has_written,
  has_readed,
}
use sdpf.IoBuf
use sdpf.IoScheduler.{IoSchedulerImp, is_init, dispatch, is_none}

pub record SocketAddr : Type 0 where
  pub ip : List ℕ
  pub port : ℕ

-- The tasks that the connection posts: `on_start`, `on_stop` and `on_send`, bound.
pub data Task : Type 0 where
  starts : SocketAddr → Task
  stops : Task
  sends : IoBufImp → Task

pub data UvCall : Type 0 where
  tcp_init tcp_nodelay read_start read_stop close_handle : UvCall
  tcp_connect : SocketAddr → UvCall
  write_bytes : List ℕ → UvCall

-- The answers that decide something; those of the other calls are only logged.
pub data UvQuery : Type 0 where
  ask_init ask_addr ask_connect ask_active ask_closing : UvQuery

pub data Notice : Type 0 where
  connected_with : ℤ → Notice
  received : ℕ → Notice
  sent : ℤ → IoBufImp → Notice
  closed : Notice

-- `handle_data` says that `handle_.data` points to the connection; the `on_` flags that a callback
-- is installed.
pub record TcpConnectionImp : Type 0 where
  pub context : Option (IoSchedulerImp Task)
  pub connected : Bool
  pub handle_data : Bool
  pub addr : SocketAddr
  pub recv_buf : IoBufImp
  pub send_queue : List IoBufImp
  pub conn_cb : Bool
  pub recv_cb : Bool
  pub send_cb : Bool
  pub close_cb : Bool

pub record World : Type 0 where
  pub conn : TcpConnectionImp
  pub calls : List UvCall
  pub told : List Notice

abbrev pub max_send_buf : ℕ
max_send_buf = 64

unfoldable pub create : Option (IoSchedulerImp Task) → TcpConnectionImp
create pctx = record {
  context = pctx;
  connected = false;
  handle_data = false;
  addr = record { ip = []; port = 0 };
  recv_buf = IoBuf.create initial_size;
  send_queue = [];
  conn_cb = false;
  recv_cb = false;
  send_cb = false;
  close_cb = false;
}

abbrev pub call : UvCall → World → World
call c w = record w { calls = w.calls ++ (c ∷ []) }

abbrev pub set_connected : Bool → World → World
set_connected b w = record w { conn = record w.conn { connected = b } }

abbrev pub set_queue : List IoBufImp → World → World
set_queue q w = record w { conn = record w.conn { send_queue = q } }

abbrev pub set_recv_buf : IoBufImp → World → World
set_recv_buf b w = record w { conn = record w.conn { recv_buf = b } }

unfoldable pub clear_buf : World → World
clear_buf w = set_queue [] w

module _ (uv : UvQuery → World → ℤ) (client : Notice → World → Option World) where
  -- Calling an installed callback.
  unfoldable pub tell : Bool → Notice → World → Option World
  tell installed n w =
      if installed then client n (record w { told = w.told ++ (n ∷ []) }) else some w

  -- `TcpConnectionImp::send_buf`: a failure of `uv_write` is only logged.
  unfoldable pub send_buf : World → Option World
  send_buf w = elim w.conn.send_queue [
    | [] ↦ none
    | buf ∷ q ↦ some (call (write_bytes (take (readable_bytes buf) (begin_read buf))) w)
  ]

  unfoldable pub on_close : World → Option World
  on_close w = let w' = clear_buf w in tell w'.conn.close_cb closed w'

  -- The callback of `uv_close`, which takes the connection from `handle_.data`.
  unfoldable pub handle_closed : World → Option World
  handle_closed w = if w.conn.handle_data then on_close w else none

  unfoldable pub on_stop : World → Option World
  on_stop w =
      if not w.conn.connected
      then some w
      else let off = set_connected false w in
        let quiet = if is_zero (uv ask_active off) then off else call read_stop off in
        if is_zero (uv ask_closing quiet) then some (call close_handle quiet) else on_close quiet

  unfoldable pub on_connect : ℤ → World → Option World
  on_connect status w =
      let on = set_connected true w in
      if not (is_zero status)
      then tell on.conn.conn_cb (connected_with status) on >>= on_stop
      else let ready =
          call read_start
            (record (call tcp_nodelay on) { conn = record on.conn { handle_data = true } }) in
        tell ready.conn.conn_cb (connected_with status) ready

  -- The first of the three libuv calls that fails gives the code.
  unfoldable pub start_connect : SocketAddr → World → ℤ × World
  start_connect a w =
      let w1 = call tcp_init w in
      let r1 = uv ask_init w1 in
      let r2 = uv ask_addr w1 in
      let w2 = call (tcp_connect a) w1 in
      let r3 = uv ask_connect w2 in
      if not (is_zero r1) then (r1, w1) else if not (is_zero r2) then (r2, w1) else (r3, w2)

  unfoldable pub on_start : SocketAddr → World → Option World
  on_start a w =
      if w.conn.connected
      then some w
      else let r =
          start_connect a (record w { conn = record w.conn { connected = true; addr = a } }) in
        if is_zero r.0 then some r.1 else on_connect r.0 r.1

  unfoldable pub on_send : IoBufImp → World → Option World
  on_send buf w =
      if not w.conn.connected
      then some w
      else if leb max_send_buf (length w.conn.send_queue)
      then tell w.conn.send_cb (sent (pos (length w.conn.send_queue)) buf) w
      else let w' = set_queue (w.conn.send_queue ++ (buf ∷ [])) w in
        elim w.conn.send_queue [ [] ↦ send_buf w' | b ∷ q ↦ some w' ]

  -- The memory that libuv may fill: where it starts and how long it is.
  unfoldable pub on_alloc : World → Option (Option (ℕ × ℕ) × World)
  on_alloc w =
      if not w.conn.connected
      then some (none, w)
      else ensure_writable w.conn.recv_buf initial_size >>= λ r.
          some (some (r.1.write_index, writable_bytes r.1), set_recv_buf r.1 w)

  -- libuv has stored `nread` bytes where `on_alloc` said.
  unfoldable pub on_read : ℤ → World → Option World
  on_read (pos n) w =
      if not w.conn.connected
      then some w
      else if n == 0
      then on_stop w
      else let written = (has_written w.conn.recv_buf n).1 in
        if w.conn.recv_cb
        then tell true (received n) (set_recv_buf written w)
        else some (set_recv_buf (has_readed written n).1 w)
  on_read (negsuc n) w = if not w.conn.connected then some w else on_stop w

  -- `pop` and, where something is left, the next write.
  unfoldable pub next_write : World → Option World
  next_write w = elim w.conn.send_queue [
    | [] ↦ none
    | done ∷ [] ↦ some (set_queue [] w)
    | done ∷ (b ∷ q) ↦ send_buf (set_queue (b ∷ q) w)
  ]

  unfoldable pub on_write : ℤ → World → Option World
  on_write status w = if not w.conn.connected then some w else do
    w' ← elim w.conn.send_queue [
      | [] ↦ if w.conn.send_cb then none else some w
      | b ∷ q ↦ tell w.conn.send_cb (sent status b) w
    ]
    if is_zero status then next_write w' else on_stop w'
