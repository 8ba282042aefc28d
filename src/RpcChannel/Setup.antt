-- ===== src/RpcChannel/Setup.antt =====
-- How a channel is put on its connection: the constructor, `start`, `stop`, `set_services`,
-- `on_connect` and `accept_connect` of src/RpcChannel.cpp.
use sdpf.Prelude.{
  ℕ, true, false, not, ◌||◌, Option, none, some, List, [], ℤ, pos, neg, is_zero, if◌then◌else◌,
  ◌==◌,
}
use sdpf.IoScheduler.{is_none}
use sdpf.RpcController
use sdpf.RpcChannel.{World, conn_started, conn_stopped, connected, emit, is_connected}

-- `RpcChannelImp::RpcChannelImp`: the connection is new.
unfoldable pub create : World
create = record {
  conn = some false;
  id = 0;
  requests = [];
  services = none;
  ctrls = λ p. RpcController.create;
  next_ctrl = 0;
  conn_cb = false;
  close_cb = false;
  bound = false;
  installed = false;
  events = [];
}

-- `none` is a null address; `ret` is what `conn_->start` returns.
unfoldable pub start : ℤ → Option (List ℕ) → ℕ → World → ℤ × World
start ret none port w = (neg 1, w)
start ret (some ip) port w =
    if port == 0
    then (neg 1, w)
    else if is_none w.conn || is_connected w
    then (neg 2, w)
    else if not (is_none w.services)
    then (neg 2, w)
    else (ret, emit (conn_started ip port) (record w { bound = true }))

unfoldable pub stop : World → ℤ × World
stop w = (pos 0, if is_none w.conn then w else emit conn_stopped w)

unfoldable pub set_services : Option (List ℕ) → World → World
set_services ss w = record w { services = ss }

-- `client` is what the connect callback does.
unfoldable pub on_connect : (ℤ → World → World) → ℤ → World → World
on_connect client status w =
    let w1 = if is_zero status then record w { installed = true } else w in
    if w1.conn_cb then client status (emit (connected status) w1) else w1

unfoldable pub accept_connect : (ℤ → World → World) → World → World
accept_connect client w = on_connect client (pos 0) w
