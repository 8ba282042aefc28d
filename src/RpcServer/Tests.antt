-- ===== src/RpcServer/Tests.antt =====
-- The theorems of sdpf.RpcServer at a server with two channels.
use sdpf.Prelude.{
  ℕ, ◌≡◌, refl, Bool, true, false, List, [], ◌∷◌, none, some, pos, neg, length, ◌^◌, ◌<◌, arith,
  has, ◌==◌, if◌then◌else◌,
}
use sdpf.Dispatcher.{meta_items, blank}
use sdpf.Dispatcher.Sample.{plain_pack}
use sdpf.Dispatcher.Roundtrip.{meta_bytes}
use sdpf.RpcChannel.{enoerror, response_meta}
use sdpf.RpcChannel.Server.{find_notify}
use sdpf.RpcChannel.Samples.{env_of, server, body}
use sdpf.RpcServer.{World, create, notify_all}
use sdpf.RpcServer.Channels.{Op, arrived, left, registered, ended}
use sdpf.TcpServer
use sdpf.TcpConnection
use sdpf.RpcServer.Joined.{Joined, Host, on_connection}
use sdpf.RpcServer.Ready.{Ready, on_connection-Ready}
use sdpf.RpcServer.Notifying.{Told, notify_all-Told}

-- Two connections arrive, the second one broken; a service comes in between, another one later, and a
-- third connection behind them.
abbrev day : List Op
day =
    registered 0
    ∷ arrived (pos 0)
    ∷ arrived (neg 1)
    ∷ registered 1
    ∷ ended
    ∷ left 0
    ∷ arrived (pos 0)
    ∷ []

-- Channel 1 has a notify request for service 0, channel 0 has none.
abbrev busy : World
busy = record create {
  channels = 1 ∷ 0 ∷ [];
  chans = λ c. if c == 1 then record server { requests = (5, 0) ∷ [] } else server;
  next_chan = 2;
  services = 0 ∷ [];
}

length-notification : (id : ℕ) → length (meta_bytes plain_pack (response_meta id enoerror)) ≡ 9
unfolding meta_bytes meta_items response_meta blank
length-notification id = refl

small_at :
    (b : Bool) (id : ℕ)
    → find_notify 0 (if b then record server { requests = (5, 0) ∷ [] } else server).requests
      ≡ some id
    → id < 2 ^ 32
unfolding find_notify
small_at true id h = ground (arith, h)
small_at false id h = cc

apart : has 1 (0 ∷ []) ≡ false
unfolding has
apart = refl

alone : has 0 [] ≡ false
unfolding has
alone = refl

notify_all-Told_example :
    (w' : World) × (notify_all (env_of (pos 0)) 0 7 busy ≡ some w')
    × ((c : ℕ)
        → has c (1 ∷ 0 ∷ []) ≡ true
        → Told (env_of (pos 0)) 0 body (busy.chans c) (w'.chans c))
    × ((c : ℕ) → has c (1 ∷ 0 ∷ []) ≡ false → w'.chans c ≡ busy.chans c)
    × (w'.channels ≡ 1 ∷ 0 ∷ [])
notify_all-Told_example =
    notify_all-Told (env_of (pos 0)) 0 7 body (λ b. refl)
      (λ id h. (refl, omega arith, omega (arith, length-notification id))) busy (apart, (alone, tt))
      (λ c h. small_at (c == 1))

-- A server that listens.
abbrev listening : Joined
listening = record {
  tcp = record {
    server = record (TcpServer.create none) { started = true; alloc_cb = true; accept_cb = true };
    conns = λ c. record { conn = TcpConnection.create none; calls = []; told = [] };
    next_conn = 0;
    calls = [];
    told = [];
  };
  rpc = busy;
}

abbrev host : Host
host = record { uv = λ q w. pos 0; conn_context = none; conn_uv = λ q v. pos 0 }

listening-alloc_cb : listening.tcp.server.alloc_cb ≡ true
unfolding TcpServer.create
listening-alloc_cb = refl

on_connection-Ready_example :
    (j : Joined) × (on_connection host (pos 0) listening ≡ some j)
    × Ready host 0 listening listening-alloc_cb (λ w. refl) (λ w. refl) j
on_connection-Ready_example =
    on_connection-Ready host 0 listening listening-alloc_cb (λ w. refl) (λ w. refl)
