-- ===== src/RpcServer/Joined.antt =====
-- A connection that comes in, at both servers: `TcpServerImp::on_accept` of src/TcpServer.cpp with the
-- alloc and accept callbacks that `RpcServerImp::on_launch` of src/RpcServer.cpp has installed.
--
-- A channel and its connection have the same number. What sdpf.RpcChannel keeps of the connection,
-- and sdpf.TcpConnection of the channel, are copies, which `attach` brings into agreement.
use sdpf.Prelude.{ℕ, ◌||◌, Option, some, [], ℤ, is_negative, if◌then◌else◌, ◌>>=◌}
use sdpf.IoScheduler.{IoSchedulerImp}
use sdpf.TcpConnection
use sdpf.TcpServer
use sdpf.TcpServer.{set_conn, accept_handle}
use sdpf.RpcChannel
use sdpf.RpcServer.{set_chan, on_alloc, on_accept}
use sdpf.RpcServer

pub record Joined : Type 0 where
  pub tcp : TcpServer.World
  pub rpc : RpcServer.World

-- What libuv answers to the server and to its connections, and the connections' scheduler.
pub record Host : Type 0 where
  pub uv : TcpServer.UvQuery → TcpServer.World → ℤ
  pub conn_context : Option (IoSchedulerImp TcpConnection.Task)
  pub conn_uv : TcpConnection.UvQuery → TcpConnection.World → ℤ

abbrev pub new_connection : Host → TcpConnection.World
new_connection host = record {
  conn = TcpConnection.create host.conn_context;
  calls = [];
  told = [];
}

-- The surroundings of the TCP server where the alloc callback makes the connection `c`; what the
-- accept callback does comes behind `on_accept`, and a new connection has no callbacks.
abbrev pub env_of : Host → ℕ → TcpServer.Env
env_of host c = record {
  uv = host.uv;
  client = λ n w. some w;
  alloc = λ w. (c, set_conn c (new_connection host) w);
  conn_context = host.conn_context;
  conn_uv = host.conn_uv;
  conn_client = λ n w. some w;
}

abbrev pub attached : RpcChannel.World → TcpConnection.World → TcpConnection.World
attached v t = record t {
  conn = record t.conn {
    recv_cb = t.conn.recv_cb || v.installed;
    send_cb = t.conn.send_cb || v.installed;
    close_cb = t.conn.close_cb || v.installed;
  };
}

unfoldable pub attach : ℕ → TcpServer.World → RpcServer.World → Joined
attach c tcp rpc = record {
  tcp = set_conn c (attached (rpc.chans c) (tcp.conns c)) tcp;
  rpc = set_chan c (record (rpc.chans c) { conn = some (tcp.conns c).conn.connected }) rpc;
}

-- The code that the accept callback is called with.
unfoldable pub accept_code : Host → ℕ → TcpServer.World → ℤ
accept_code host c w = (accept_handle (env_of host c) c (set_conn c (new_connection host) w)).0

unfoldable pub on_connection : Host → ℤ → Joined → Option Joined
on_connection host status j =
    if is_negative status
    then some j
    else let (c, rpc) = on_alloc j.rpc in
      TcpServer.on_accept (env_of host c) status j.tcp >>= λ tcp.
      if j.tcp.server.alloc_cb
      then (on_accept c (accept_code host c j.tcp) rpc >>= λ rpc'. some (attach c tcp rpc'))
      else some (record j { tcp = tcp })
