-- ===== src/RpcChannel.antt =====
-- The state of a channel and what its operations share: src/RpcChannel.cpp.
--
-- Controllers, services and messages are known by their addresses, numbers; the world holds the
-- controllers that the addresses stand for. What the channel hands to others is recorded: packets
-- given to `conn_->send`, callbacks run, threads woken.
pub mod Setup
pub mod Owners
pub mod Lifetime
pub mod Client
pub mod Server
pub mod Pending
pub mod Branches
pub mod Calls
pub mod Sync
pub mod Notified
pub mod Responses
pub mod Closing
pub mod Serving
pub mod Subscribing
pub mod Lookup
pub mod Freshness
pub mod Keeping
pub mod Numbering
pub mod Processing
pub mod Stages
pub mod Answering
pub mod Delivery
pub mod Samples
mod Tests
mod ServerTests
mod OwnerTests
use sdpf.Prelude.{
  ℕ, ◌+◌, ◌%◌, ◌^◌, Bool, true, false, not, ◌&&◌, Option, none, some, List, [], ◌∷◌, ◌++◌, ◌==◌,
  if◌then◌else◌, take, ℤ, pos, neg, is_zero, ◌>>=◌, lookup, insert, erase,
}
use sdpf.IoBuf.{IoBufImp}
use sdpf.Dispatcher.{MsgPack, MetaRpc, blank, rpctype_request, rpctype_response}
use sdpf.Frame.{Serialize, pack, same_bytes}
use sdpf.RpcController.{RpcControllerImp}
use sdpf.RpcController

-- What others see of the channel's work, oldest first.
pub data Event : Type 0 where
  -- `done()` of the controller at the address; `notify()`, which wakes its waiting thread
  completed woken : ℕ → Event
  -- a packet that `conn_->send` took
  sent : IoBufImp → Event
  -- `psvc->call_method(method_id, request, response, ctrl)`
  called : ℕ → ℤ → Option ℕ → Option ℕ → ℕ → Event
  closed : Event
  -- `conn_->start`, `conn_->stop` and the connect callback
  conn_started : List ℕ → ℕ → Event
  conn_stopped : Event
  connected : ℤ → Event

-- `RpcChannelImp`, with the controllers it points to.
pub record World : Type 0 where
  -- `conn_`: `none` is null, otherwise whether it is connected
  pub conn : Option Bool
  pub id : ℕ
  pub requests : List (ℕ × ℕ)
  -- `services_`, null on the client's side
  pub services : Option (List ℕ)
  pub ctrls : ℕ → RpcControllerImp
  -- the next address that `new RpcController` gives
  pub next_ctrl : ℕ
  pub conn_cb : Bool
  pub close_cb : Bool
  -- `on_connect` is the connection's connect callback
  pub bound : Bool
  -- `on_recv`, `on_send` and `on_close` are its other callbacks
  pub installed : Bool
  pub events : List Event

-- The virtual functions of a service that the user of the library writes.
pub record Service : Type 0 where
  pub name : List ℕ
  pub find_method : List ℕ → ℤ
  pub new_request : ℤ → Option ℕ
  pub new_response : ℤ → Option ℕ

-- What the channel calls: msgpack, the connection's `send`, the messages' virtual functions, the
-- services, and the user's callbacks, which may do anything to the world.
pub record Env : Type 0 where
  pub mp : MsgPack
  pub send : IoBufImp → ℤ
  pub serialize : ℕ → Serialize
  pub deserialize : ℕ → List ℕ → ℤ
  pub service : ℕ → Service
  pub user : ℕ → World → World

-- The error codes.
abbrev pub enoerror : ℤ
enoerror = pos 0

abbrev pub enoservice : ℤ
enoservice = pos 1001

abbrev pub enomethod : ℤ
enomethod = pos 1002

abbrev pub erequest : ℤ
erequest = pos 1003

abbrev pub eresponse : ℤ
eresponse = pos 1004

abbrev pub emethodcall : ℤ
emethodcall = pos 1005

abbrev pub enetwork : ℤ
enetwork = pos 1006

abbrev pub einternal : ℤ
einternal = pos 1007

-- `_METHOD_NOTIFY` and `_ENOTIFY_MARK`
abbrev pub method_notify : List ℕ
method_notify = b'n' ∷ b'o' ∷ b't' ∷ b'i' ∷ b'f' ∷ b'y' ∷ []

abbrev pub enotify_mark : ℤ
enotify_mark = pos 9876

abbrev pub is_connected : World → Bool
is_connected w = elim w.conn [ none ↦ false | some c ↦ c ]

abbrev pub emit : Event → World → World
emit e w = record w { events = w.events ++ (e ∷ []) }

-- A write through a `RpcController*`.
abbrev pub set_ctrl : ℕ → RpcControllerImp → World → World
set_ctrl p c w = record w { ctrls = λ q. if p == q then c else w.ctrls q }

abbrev pub set_ec : ℕ → ℤ → World → World
set_ec p code w = set_ctrl p (RpcController.ec (w.ctrls p) code) w

abbrev pub set_text : ℕ → List ℕ → World → World
set_text p str w = set_ctrl p (RpcController.text (w.ctrls p) str) w

abbrev pub set_resp : ℕ → Option ℕ → World → World
set_resp p r w = set_ctrl p (RpcController.resp (w.ctrls p) r) w

-- `if (done) done(); else ctrl->notify();`
unfoldable pub finish : Env → ℕ → World → World
finish env p w = elim (w.ctrls p).callback [
  | none ↦ emit (woken p) w
  | some cb ↦ env.user cb (emit (completed p) w)
]

-- `remove_request`: a notify request, whose code is not 0, stays.
unfoldable pub remove_request : ℕ → World → Option ℕ × World
remove_request id w = elim (lookup id w.requests) [
  | none ↦ (none, w)
  | some p ↦
      if is_zero (w.ctrls p).code
      then (some p, record w { requests = erase id w.requests })
      else (some p, w)
]

-- `send_packet`: -1, -2 from the packing, -3 where the connection refuses the packet.
unfoldable pub send_packet : Env → MetaRpc → Option ℕ → World → Option (ℤ × World)
send_packet env meta msg w =
    pack env.mp meta (elim msg [ none ↦ none | some m ↦ some (env.serialize m) ]) >>= λ r.
    if not (is_zero r.0)
    then some (r.0, w)
    else if not (is_zero (env.send r.1))
    then some (neg 3, w)
    else some (pos 0, emit (sent r.1) w)

-- The meta of a response: no text is sent.
unfoldable pub response_meta : ℕ → ℤ → MetaRpc
response_meta id code = record (blank rpctype_response) { relation_id = id; code = code }

-- `send_resp`: a failure is only logged.
unfoldable pub send_resp : Env → ℕ → ℤ → Option ℕ → World → Option World
send_resp env id code response w =
    send_packet env (response_meta id code) response w >>= λ r. some r.1
