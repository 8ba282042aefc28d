-- ===== src/Link/Notifying.antt =====
-- A subscription and its notifications over two connections: the notify requests of
-- src/RpcChannel.cpp on top of src/TcpConnection.cpp.
use sdpf.Prelude.{
  ℕ, ◌^◌, ◌<◌, ◌≡◌, refl, ap, ◌∙◌, true, false, some, List, [], ◌∷◌, ◌++◌, lookup, arith, ℤ, pos,
  is_zero,
}
use sdpf.IoBuf.{IoBufImp}
use sdpf.IoBuf.Invariant.{contents}
use sdpf.TcpConnection.{UvQuery}
use sdpf.TcpConnection
use sdpf.RpcChannel.{
  World, Env, sent, completed, enoerror, emit, response_meta, set_ec, enotify_mark,
}
use sdpf.RpcChannel.Client.{process_response, response_code}
use sdpf.RpcChannel.Server.{find_notify, notify}
use sdpf.RpcChannel.Serving.{response_meta-IsMeta}
use sdpf.RpcChannel.Pending.{Carried, Accepts, callback-set_ec, finish_completed}
use sdpf.RpcChannel.Calls.{==_refl}
use sdpf.RpcChannel.Stages.{process-response_meta}
use sdpf.RpcChannel.Responses.{process_response_notify}
use sdpf.RpcChannel.Subscribing.{notify_sends}
use sdpf.Link.Reading.{up}
use sdpf.Link.Calling.{IsIdle, reading, arrive_packet}

-- The client's channel `w` waits for the notifications of the server's service `s`, and the server's
-- channel `v` sends them to it. The callback leaves the client alone.
pub record Subscribed (env : Env) (s id p cb : ℕ) (v w : World) (tc : TcpConnection.World)
    : Type 0 where
  pub small : id < 2 ^ 32
  pub services : List ℕ
  pub online : v.conn ≡ some true
  pub has_services : v.services ≡ some services
  pub registered : find_notify s v.requests ≡ some id
  pub waits : lookup id w.requests ≡ some p
  pub marked : is_zero (w.ctrls p).code ≡ false
  pub callback : (w.ctrls p).callback ≡ some cb
  pub idle : IsIdle tc

module _ (env : Env) (uv : UvQuery → TcpConnection.World → ℤ) (enobufs me : ℕ) (send_ret : ℤ)
    (a : Accepts env) where
  -- What a notification comes to.
  pub record Notified (s id p cb msg : ℕ) (v w : World) (tc : TcpConnection.World) : Type 0 where
    pub packet : IoBufImp
    pub v' : World
    pub w' : World
    pub tc' : TcpConnection.World
    -- the server sends one packet, and is told 0
    pub notifies : notify env (some s) (some msg) v ≡ some (pos 0, v')
    pub sends : v'.events ≡ v.events ++ (sent packet ∷ [])
    -- the client's connection reads it, and its channel runs the callback of the subscription once
    pub reads :
        reading env uv enobufs me send_ret (contents packet) tc w
        ≡ some (record { conn = up tc'; state = some w' })
    pub runs : w'.events ≡ w.events ++ (completed p ∷ [])
    -- the next notification finds both channels as this one has
    pub again : Subscribed env s id p cb v' w' tc'

  -- The client behind the callback.
  abbrev told : ℕ → List ℕ → World → World
  told p body w =
      set_ec p enotify_mark
        (emit (completed p) (set_ec p (response_code env (w.ctrls p).response enoerror body) w))

  told_lem :
      {s id p cb : ℕ} {v w : World} {tc : TcpConnection.World} (body : List ℕ)
      → Subscribed env s id p cb v w tc
      → ((u : World) → env.user cb u ≡ u)
      → process_response env id enoerror body w ≡ told p body w
  told_lem {s} {id} {p} {cb} {v} {w} body sub quiet =
      let w1 = set_ec p (response_code env (w.ctrls p).response enoerror body) w in
      process_response_notify env id p w sub.waits enoerror body sub.marked
      ∙ ap (set_ec p enotify_mark) (
          finish_completed env p cb w1 (callback-set_ec p p _ w ∙ sub.callback)
          ∙ quiet (emit (completed p) w1))

  -- Where a client is subscribed to a service, the server's `notify` returns 0 and sends one packet;
  -- when that has come in one read, the client's callback for the service has been run once more,
  -- and the two channels and the connection are ready for the next notification in the same way.
  -- (The connections take the packets, the message fits one, and the callback changes nothing in
  -- the client's channel.)
  pub notify-Notified :
      (s id p cb msg : ℕ) (body : List ℕ) (v w : World) (tc : TcpConnection.World)
      (sub : Subscribed env s id p cb v w tc)
      → ((u : World) → env.user cb u ≡ u)
      → Carried env
          (response_meta id enoerror)
          (response_meta-IsMeta id enoerror sub.small (omega arith))
          (some msg)
          body
      → Notified s id p cb msg v w tc
  notify-Notified s id p cb msg body v w tc sub quiet c =
      let (v', notifies, answered) =
        notify_sends env s msg id sub.services body v sub.small sub.online sub.has_services
          sub.registered a c in
      let (tc', took, idle) =
        arrive_packet env uv enobufs me send_ret (response_meta id enoerror)
          (response_meta-IsMeta id enoerror sub.small (omega arith)) (some msg) body
          (contents answered.packet) tc w c answered.bytes sub.idle in
      let w1 = set_ec p (response_code env (w.ctrls p).response enoerror body) w in
      record {
        packet = answered.packet;
        v' = v';
        w' = told p body w;
        tc' = tc';
        notifies = notifies;
        sends = ap (λ u. u.events) answered.world;
        reads =
            took
            ∙ ap (λ x. some (record { conn = up tc'; state = x }))
                (process-response_meta env true id enoerror body w
                  ∙ ap some (told_lem body sub quiet));
        runs = refl;
        again = record {
          small = sub.small;
          services = sub.services;
          online = ap (λ u. u.conn) answered.world ∙ sub.online;
          has_services = ap (λ u. u.services) answered.world ∙ sub.has_services;
          registered = ap (λ u. find_notify s u.requests) answered.world ∙ sub.registered;
          waits = sub.waits;
          marked = rw (==_refl p) refl;
          callback =
              callback-set_ec p p enotify_mark (emit (completed p) w1)
              ∙ callback-set_ec p p _ w
              ∙ sub.callback;
          idle = idle;
        };
      }
