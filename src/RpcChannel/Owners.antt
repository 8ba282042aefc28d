-- ===== src/RpcChannel/Owners.antt =====
-- Who keeps a channel and its connection alive: the classes `RpcChannel` and `TcpConnection`, which
-- are held by `std::shared_ptr`, with their `Imp` objects, of src/RpcChannel.cpp and
-- src/TcpConnection.cpp.
--
-- A channel owns its `RpcChannelImp`, which holds the connection in `conn_`; `set_shared` makes each
-- `Imp` hold its own owner in `pif_`. The callbacks of the connection hold the `RpcChannelImp` by its
-- bare address. `none` is undefined behaviour: such a callback behind the end of the channel.
use sdpf.Prelude.{
  ℕ, ◌+◌, ◌-◌, Bool, true, false, not, ◌&&◌, ◌||◌, Option, none, some, List, [], ◌∷◌, ℤ, ◌==◌,
  if◌then◌else◌, ◌>>=◌,
}
use sdpf.RpcChannel.{World}
use sdpf.RpcChannel.Setup

-- `chan_refs` and `conn_refs` count the pointers to the two that are held elsewhere: by the user, in
-- the set of a server, in an argument. `chan_self` and `conn_self` say that `pif_` is set, `member`
-- that `conn_` is.
pub record Owned : Type 0 where
  pub chan : World
  pub chan_refs : ℕ
  pub chan_self : Bool
  pub chan_live : Bool
  pub conn_refs : ℕ
  pub member : Bool
  pub conn_self : Bool
  pub conn_live : Bool

-- `make_shared<RpcChannel>`
unfoldable pub make_shared : Owned
make_shared = record {
  chan = Setup.create;
  chan_refs = 1;
  chan_self = false;
  chan_live = true;
  conn_refs = 0;
  member = true;
  conn_self = false;
  conn_live = true;
}

-- A connection without a pointer to it is destroyed, and its `Imp` with it.
abbrev pub settle_conn : Owned → Owned
settle_conn o =
    if o.conn_refs == 0 && (not o.member && not o.conn_self)
    then record o { conn_live = false }
    else o

-- `~RpcChannelImp` resets `conn_`, and with it the channel's pointer.
abbrev pub destroy_imp : Owned → Owned
destroy_imp o = settle_conn (record o { member = false })

-- `~RpcChannel` deletes the `Imp`.
abbrev pub destroy : Owned → Owned
destroy o = destroy_imp (record o { chan_live = false })

-- A channel without a pointer to it is destroyed.
abbrev pub settle_chan : Owned → Owned
settle_chan o = if o.chan_refs == 0 && not o.chan_self then destroy o else o

unfoldable pub release : Owned → Owned
release o = if o.chan_refs == 0 then o else settle_chan (record o { chan_refs = o.chan_refs - 1 })

unfoldable pub release_conn : Owned → Owned
release_conn o =
    if o.conn_refs == 0 then o else settle_conn (record o { conn_refs = o.conn_refs - 1 })

-- A method can only be called through a pointer.
abbrev pub on_chan : (Owned → Owned) → Owned → Owned
on_chan f o = if o.chan_refs == 0 then o else f o

abbrev pub on_conn : (Owned → Owned) → Owned → Owned
on_conn f o = if o.conn_refs == 0 then o else f o

-- A pointer is copied: one that is held, or `pif_`, which callbacks are given.
unfoldable pub share : Owned → Owned
share o = if o.chan_live then record o { chan_refs = o.chan_refs + 1 } else o

unfoldable pub share_conn : Owned → Owned
share_conn o = if o.conn_live then record o { conn_refs = o.conn_refs + 1 } else o

-- `RpcChannel::connection`
unfoldable pub connection : Owned → Owned
connection o = on_chan (λ o'. record o' { conn_refs = o'.conn_refs + 1 }) o

-- `RpcChannelImp::set_shared` and `TcpConnectionImp::set_shared`
abbrev pub set_shared : Owned → Owned
set_shared o = record o { chan_self = true }

abbrev pub set_shared_conn : Owned → Owned
set_shared_conn o = record o { conn_self = true }

-- `RpcChannel::start`. Where the `Imp` binds the connect callback it also calls
-- `TcpConnection::start`, so that the connection has a pointer to itself wherever that is bound.
unfoldable pub start : ℤ → Option (List ℕ) → ℕ → Owned → Owned
start ret ip port o =
    let w = (Setup.start ret ip port o.chan).1 in
    on_chan (λ o'. record (set_shared o') { chan = w; conn_self = o'.conn_self || w.bound }) o

-- `RpcChannel::accept_connect`
unfoldable pub accept_connect : (ℤ → World → World) → Owned → Owned
accept_connect client o =
    on_chan (λ o'. record (set_shared o') { chan = Setup.accept_connect client o'.chan }) o

-- `TcpConnection::accept_connect`
unfoldable pub accept_conn : Owned → Owned
accept_conn o = on_conn set_shared_conn o

-- The connection calls one of the callbacks that it has from the channel, which does `f`.
unfoldable pub call_back : (World → World) → Owned → Option Owned
call_back f o =
    if o.conn_live && (o.chan.bound || o.chan.installed)
    then if o.chan_live then some (record o { chan = f o.chan }) else none
    else some o

pub data Op : Type 0 where
  shares releases shares_conn connects releases_conn accepts_conn : Op
  starts : ℤ → Option (List ℕ) → ℕ → Op
  accepts : (ℤ → World → World) → Op
  calls_back : (World → World) → Op

unfoldable pub step : Op → Owned → Option Owned
step shares o = some (share o)
step releases o = some (release o)
step shares_conn o = some (share_conn o)
step connects o = some (connection o)
step releases_conn o = some (release_conn o)
step accepts_conn o = some (accept_conn o)
step (starts ret ip port) o = some (start ret ip port o)
step (accepts client) o = some (accept_connect client o)
step (calls_back f) o = call_back f o

unfoldable pub run : List Op → Owned → Option Owned
run [] o = some o
run (op ∷ ops) o = step op o >>= run ops
