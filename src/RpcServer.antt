-- ===== src/RpcServer.antt =====
-- The RPC server: src/RpcServer.cpp.
--
-- A channel is known by the number of its connection, which `conn->data` leads back from: `channels`
-- is `channels_`, a set, and `chans` holds the state of every channel. The channels hold pointers to
-- the one vector `services_`, so a service that is registered later shows in all that have one.
-- `none` is undefined behaviour: a null channel that is called, or what sdpf.RpcChannel reports.
pub mod Channels
pub mod Served
pub mod Notifying
pub mod Joined
pub mod Ready
mod Tests
use sdpf.Prelude.{
  ℕ, ◌+◌, Bool, true, false, not, Option, none, some, List, [], ◌∷◌, ◌++◌, ℤ, pos, is_zero,
  if◌then◌else◌, ◌==◌, ◌>>=◌, has, remove,
}
use sdpf.RpcChannel
use sdpf.RpcChannel.{Env}
use sdpf.RpcChannel.Setup
use sdpf.RpcChannel.Client
use sdpf.RpcChannel.Server

pub data Event : Type 0 where
  tcp_started : List ℕ → ℕ → Event
  tcp_stopped : Event
  launched : ℤ → Event
  closed : Event

-- `launching` says that the server's callbacks are installed on `tcp_server_` for launch and close,
-- `accepting` for alloc and accept.
pub record World : Type 0 where
  pub channels : List ℕ
  pub chans : ℕ → RpcChannel.World
  pub next_chan : ℕ
  pub services : List ℕ
  pub launch_cb : Bool
  pub close_cb : Bool
  pub launching : Bool
  pub accepting : Bool
  pub events : List Event

abbrev pub emit : Event → World → World
emit e w = record w { events = w.events ++ (e ∷ []) }

abbrev pub set_chan : ℕ → RpcChannel.World → World → World
set_chan c v w = record w { chans = λ d. if c == d then v else w.chans d }

unfoldable pub create : World
create = record {
  channels = [];
  chans = λ c. RpcChannel.Setup.create;
  next_chan = 0;
  services = [];
  launch_cb = false;
  close_cb = false;
  launching = false;
  accepting = false;
  events = [];
}

-- `ret` is what `tcp_server_.start` returns.
unfoldable pub start : ℤ → List ℕ → ℕ → World → ℤ × World
start ret ip port w = (ret, emit (tcp_started ip port) (record w { launching = true }))

-- `close_all`: the channels in the order of the iteration.
unfoldable pub stop_each : List ℕ → World → World
stop_each [] w = w
stop_each (c ∷ cs) w = stop_each cs (set_chan c (RpcChannel.Setup.stop (w.chans c)).1 w)

unfoldable pub close_all : World → World
close_all w = stop_each w.channels w

-- `ret` is what `tcp_server_.stop` returns.
unfoldable pub stop : ℤ → World → ℤ × World
stop ret w = (ret, emit tcp_stopped (close_all w))

-- A channel that has the pointer sees the longer vector.
abbrev pub see : List ℕ → RpcChannel.World → RpcChannel.World
see ss v = RpcChannel.Setup.set_services (elim v.services [ none ↦ none | some old ↦ some ss ]) v

unfoldable pub register_service : ℕ → World → ℤ × World
register_service s w =
    let ss = w.services ++ (s ∷ []) in
    (pos 0, record w { services = ss; chans = λ c. see ss (w.chans c) })

unfoldable pub on_launch : ℤ → World → World
on_launch status w =
    let w1 = if is_zero status then record w { accepting = true } else w in
    if w1.launch_cb then emit (launched status) w1 else w1

-- The channel, and with it its connection, gets the next number.
unfoldable pub on_alloc : World → ℕ × World
on_alloc w = (
  w.next_chan,
  record (set_chan w.next_chan RpcChannel.Setup.create w) {
    channels = w.next_chan ∷ w.channels;
    next_chan = w.next_chan + 1;
  },
)

unfoldable pub on_channel_connect : List ℕ → ℤ → RpcChannel.World → RpcChannel.World
on_channel_connect ss status v =
    if is_zero status then RpcChannel.Setup.set_services (some ss) v else v

unfoldable pub on_accept : ℕ → ℤ → World → Option World
on_accept c status w =
    if is_zero status
    then if has c w.channels
      then some (
          set_chan c
            (RpcChannel.Setup.accept_connect (on_channel_connect w.services)
              (record (w.chans c) { conn_cb = true; close_cb = true }))
            w)
      else none
    else some (record w { channels = remove c w.channels })

unfoldable pub on_channel_close : ℕ → World → World
on_channel_close c w = record w { channels = remove c w.channels }

-- The connection `c` closes: if the channel has installed its callbacks, its `on_close`, with
-- `on_channel_close` as the close callback.
unfoldable pub conn_closed : Env → ℕ → World → World
conn_closed env c w =
    if not (w.chans c).installed
    then w
    else let w' = set_chan c (RpcChannel.Client.on_close env (w.chans c)) w in
      if (w.chans c).close_cb then on_channel_close c w' else w'

unfoldable pub on_close : World → World
on_close w = if w.close_cb then emit closed w else w

-- `notify_all`: a channel's status is dropped.
unfoldable pub notify_each : Env → ℕ → ℕ → List ℕ → World → Option World
notify_each env svc msg [] w = some w
notify_each env svc msg (c ∷ cs) w =
    RpcChannel.Server.notify env (some svc) (some msg) (w.chans c) >>= λ r.
    notify_each env svc msg cs (set_chan c r.1 w)

unfoldable pub notify_all : Env → ℕ → ℕ → World → Option World
notify_all env svc msg w = notify_each env svc msg w.channels w
