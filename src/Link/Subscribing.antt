-- ===== src/Link/Subscribing.antt =====
-- A notify request over two connections, from the client's call to the server's table.
use sdpf.Prelude.{
  ℕ, ◌≡◌, refl, ap, ◌∙◌, true, false, Option, none, some, List, [], ◌∷◌, ◌++◌, lookup-insert, arith,
  ℤ, pos, is_negative, take,
}
use sdpf.IoBuf.{IoBufImp}
use sdpf.IoBuf.Invariant.{contents}
use sdpf.Dispatcher.Roundtrip.{IsCString, IsMeta}
use sdpf.TcpConnection.{UvQuery}
use sdpf.TcpConnection
use sdpf.RpcChannel.{World, Env, sent, emit, method_notify}
use sdpf.RpcChannel.Client.{Waiting, call_method, name_max, request_meta, has_notify}
use sdpf.RpcChannel.Server.{find_svc, find_notify, register}
use sdpf.RpcChannel.Pending.{Carried, Accepts, request_meta-IsMeta}
use sdpf.RpcChannel.Calls.{next_id, next_id-lt, ==_refl}
use sdpf.RpcChannel.Notified.{
  entered_notify, subscribed, subscribed-callback, subscribed-code, call_notify_sent,
}
use sdpf.RpcChannel.Subscribing.{find_notify-register, notify_request_lem, register_events, kept}
use sdpf.RpcChannel.Stages.{process-request_meta}
use sdpf.Link.Reading.{up}
use sdpf.Link.Calling.{IsIdle, reading, arrive_packet}
use sdpf.Link.Notifying.{Subscribed}

method_notify-IsCString : IsCString method_notify
method_notify-IsCString =
    (omega arith, (omega arith, (omega arith, (omega arith, (omega arith, (omega arith, tt))))))

-- A client that may subscribe, and a server with the service and its notify method that has no
-- subscription for it yet; the client's connection is `tc`, the server's `ts`.
pub record CanSubscribe (env : Env) (service : List ℕ) (response : Option ℕ) (s p cb : ℕ)
    (v w : World) (tc ts : TcpConnection.World) : Type 0 where
  pub text : IsCString service
  pub connected : w.conn ≡ some true
  pub client : w.services ≡ none
  pub callback : (w.ctrls p).callback ≡ some cb
  pub alone : has_notify (entered_notify p service response w).ctrls service w.requests ≡ false
  pub services : List ℕ
  pub online : v.conn ≡ some true
  pub has_services : v.services ≡ some services
  pub found : find_svc env.service (take name_max service) services ≡ some s
  pub has_method : is_negative ((env.service s).find_method method_notify) ≡ false
  pub unasked : find_notify s v.requests ≡ none
  pub client_idle : IsIdle tc
  pub server_idle : IsIdle ts

pub notify_meta-IsMeta :
    (service : List ℕ) (w : World)
    → IsCString service
    → IsMeta (request_meta (next_id w) service method_notify)
notify_meta-IsMeta service w t =
    request_meta-IsMeta (next_id w) service method_notify (next_id-lt w) t method_notify-IsCString

-- What a subscription comes to.
pub record Subscribing (env : Env) (uv : UvQuery → TcpConnection.World → ℤ) (enobufs me : ℕ)
    (send_ret : ℤ) (waiting : Waiting) (service : List ℕ) (response : Option ℕ) (s p cb : ℕ)
    (v w : World) (tc ts : TcpConnection.World) : Type 0 where
  pub packet : IoBufImp
  pub w' : World
  pub v' : World
  pub ts' : TcpConnection.World
  -- the call returns 0, with one packet more
  pub call :
      call_method env waiting (some service) (some method_notify) none response (some p) w
      ≡ some (pos 0, w')
  pub call_events : w'.events ≡ w.events ++ (sent packet ∷ [])
  -- the server's connection reads it, and its channel answers nothing
  pub reads :
      reading env uv enobufs me send_ret (contents packet) ts v
      ≡ some (record { conn = up ts'; state = some v' })
  pub silent : v'.events ≡ v.events
  pub idle : IsIdle ts'
  -- from now on notifications go from the one to the other
  pub subscribed : Subscribed env s (next_id w) p cb v' w' tc

-- A first notify request, without a message, from a connected client with a callback to a connected
-- server that has the service and its notify method, and no notify request for it yet: the call
-- returns 0, and when its one packet has come in one read, it is not answered, but the server
-- sends the service's notifications under the id with which the client waits for them.
-- (The connections are up, have nothing left in their buffers, and take the packets.)
pub call_method-Subscribing :
    (env : Env) (uv : UvQuery → TcpConnection.World → ℤ) (enobufs me : ℕ) (send_ret : ℤ)
    (waiting : Waiting) (service : List ℕ) (response : Option ℕ) (s p cb : ℕ) (v w : World)
    (tc ts : TcpConnection.World) (can : CanSubscribe env service response s p cb v w tc ts)
    → Accepts env
    → Carried env
        (request_meta (next_id w) service method_notify)
        (notify_meta-IsMeta service w can.text)
        none
        []
    → Subscribing env uv enobufs me send_ret waiting service response s p cb v w tc ts
call_method-Subscribing env uv enobufs me send_ret waiting service response s p cb v w tc ts can a
      c =
    let im = notify_meta-IsMeta service w can.text in
    let id = next_id w in
    let (b, called, held) =
      call_notify_sent env waiting service none response p cb w can.callback [] can.connected
        can.client can.alone a im c in
    let (ts', took, idle) =
      arrive_packet env uv enobufs me send_ret (request_meta id service method_notify) im none []
        (contents b) ts v c held can.server_idle in
    let (events, conns, servs) = register_events id s v in
    record {
      packet = b;
      w' = emit (sent b) (subscribed p service response w);
      v' = register id s v;
      ts' = ts';
      call = called;
      call_events = refl;
      reads =
          took
          ∙ ap (λ x. some (record { conn = up ts'; state = x }))
              (process-request_meta env true id service method_notify [] v
                ∙ notify_request_lem env true id s (take name_max service) can.services v
                    can.has_services can.found can.has_method);
      silent = events;
      idle = idle;
      subscribed = record {
        small = next_id-lt w;
        services = can.services;
        online = conns ∙ can.online;
        has_services = servs ∙ can.has_services;
        registered = find_notify-register id s v ∙ ap (λ o. some (kept id o)) can.unasked;
        waits = rw (lookup-insert, ==_refl id) refl;
        marked = subscribed-code env waiting service none response p cb w can.callback;
        callback = subscribed-callback env waiting service none response p cb w can.callback;
        idle = can.client_idle;
      };
    }
