-- ===== src/RpcServer/Served.antt =====
-- The channels in the set of a server have its services, over the life of its connections.
use sdpf.Prelude.{ℕ, ◌≡◌, true, some, List, has}
use sdpf.RpcChannel
use sdpf.RpcChannel.Setup
use sdpf.RpcChannel.Client
use sdpf.RpcServer.{World}

-- A channel that points to these services and tells the server when it closes.
abbrev pub IsServed : List ℕ → RpcChannel.World → Type 0
IsServed ss v = (v.services ≡ some ss) × (v.close_cb ≡ true)

abbrev pub AllServed : World → Type 0
AllServed w = (c : ℕ) → has c w.channels ≡ true → IsServed w.services (w.chans c)
