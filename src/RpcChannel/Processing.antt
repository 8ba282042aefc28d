-- ===== src/RpcChannel/Processing.antt =====
-- A message that `parse` of src/RpcChannel.cpp has taken out, and the bytes that `on_recv` gets.
--
-- `none` is undefined behaviour: what sdpf.RpcChannel.Server reports, or a read outside the buffer.
use sdpf.Prelude.{ℕ, Bool, Option, some, List, if◌then◌else◌, ◌>>=◌}
use sdpf.IoBuf.{IoBufImp}
use sdpf.Dispatcher.{MetaRpc, is_request, is_response}
use sdpf.Frame.{Received}
use sdpf.Frame
use sdpf.RpcChannel.{World, Env}
use sdpf.RpcChannel.Client.{process_response}
use sdpf.RpcChannel.Server.{process_request}

-- `memory` says whether `new RpcController` finds memory.
unfoldable pub process : Env → Bool → MetaRpc → List ℕ → World → Option World
process env memory m body w =
    if is_request m.type
    then process_request env memory m.relation_id m.service m.method body w
    else if is_response m.type
    then some (process_response env m.relation_id m.code body w)
    else some w

abbrev pub process_next : Env → Bool → MetaRpc → List ℕ → Option World → Option World
process_next env memory m body o = o >>= λ w. process env memory m body w

-- `on_recv` with all that the messages do to the channel.
unfoldable pub on_recv : Env → Bool → ℕ → IoBufImp → World → Option (Received (Option World))
on_recv env memory fuel pb w = Frame.on_recv env.mp (process_next env memory) fuel pb (some w)
