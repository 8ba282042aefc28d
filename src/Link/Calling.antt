-- ===== src/Link/Calling.antt =====
-- A call whose packets go over two connections: src/RpcChannel.cpp on top of src/TcpConnection.cpp.
use sdpf.Prelude.{
  ℕ, ◌-◌, ◌≤◌, ◌≡◌, refl, sym, ap, ◌∙◌, true, Option, none, some, inl, inr, List, [], ◌∷◌, ◌++◌,
  lookup, erase-insert, length, arith, ℤ, pos, take, append-nil,
}
use sdpf.IoBuf.{IoBufImp, initial_size}
use sdpf.IoBuf.Invariant.{IsValid, contents, readable_lem, length-contents}
use sdpf.Dispatcher.{MetaRpc}
use sdpf.Dispatcher.Roundtrip.{IsMeta}
use sdpf.Frame.Wire.{wire, length-wire}
use sdpf.Frame.Receiving.{wires}
use sdpf.TcpConnection.{UvQuery}
use sdpf.TcpConnection
use sdpf.RpcChannel.{World, Env, sent, called, completed, enoerror, emit, response_meta}
use sdpf.RpcChannel.Client.{Waiting, call_method, response_code, name_max}
use sdpf.RpcChannel.Server.{invoke, done}
use sdpf.RpcChannel.Serving.{response_meta-IsMeta}
use sdpf.RpcChannel.Pending.{Carried, Accepts}
use sdpf.RpcChannel.Delivery.{Carried-Carries}
use sdpf.RpcChannel.Calls.{IsOrdinary, meta, meta-IsMeta, next_id, next_id-lt, call_async_world}
use sdpf.RpcChannel.Processing.{process, process_next}
use sdpf.RpcChannel.Stages.{
  Serves, process_request-Serves, process-request_meta, process-response_meta, invoke-ctrl,
  invoke-events, done_lem, calling, taken, completes, taken-code,
}
use sdpf.Link.{Link, arrive}
use sdpf.Link.Reading.{up, arrive-wires}

-- A connection that waits for its next message: up, with nothing left in its buffer.
pub record IsIdle (t : TcpConnection.World) : Type 0 where
  pub valid : IsValid t.conn.recv_buf
  pub empty : contents t.conn.recv_buf ≡ []

-- A packet that `send_packet` can build has at most 1024 bytes.
length-Carried :
    (env : Env) (m : MetaRpc) (im : IsMeta m) (msg : Option ℕ) (body : List ℕ)
    → Carried env m im msg body
    → length (wire env.mp m body) ≤ initial_size
length-Carried env m im none body (room, e) = omega (arith, length-wire env.mp m body, ap length e)
length-Carried env m im (some r) body (e, p, room) = omega (arith, length-wire env.mp m body)

module _ (env : Env) (uv : UvQuery → TcpConnection.World → ℤ) (enobufs me : ℕ) (send_ret : ℤ) where
  -- The channel behind the connection `t`, where the bytes of a read come.
  abbrev pub reading : List ℕ → TcpConnection.World → World → Option (Link (Option World))
  reading bytes t v =
      arrive uv enobufs me send_ret env.mp (process_next env true) bytes
        (record { conn = up t; state = some v })

  -- One packet comes in one read: the channel processes its message, and is idle again.
  pub arrive_packet :
      (m : MetaRpc) (im : IsMeta m) (msg : Option ℕ) (body bytes : List ℕ) (t : TcpConnection.World)
      (v : World)
      → Carried env m im msg body
      → bytes ≡ wire env.mp m body
      → IsIdle t
      → (t' : TcpConnection.World) × (reading bytes t v
          ≡ some (record { conn = up t'; state = process env true m body v }))
        × IsIdle t'
  unfolding wires
  arrive_packet m im msg body bytes t v c e idle =
      let fits = Carried-Carries env m im msg body c in
      let none_left : t.conn.recv_buf.write_index - t.conn.recv_buf.read_index ≡ 0 =
        sym (length-contents idle.valid ∙ readable_lem idle.valid) ∙ ap length idle.empty in
      let (t', took, valid, left, front) =
        arrive-wires uv enobufs me send_ret env.mp (process_next env true) bytes ((m, body) ∷ []) []
          t (some v) idle.valid (inl (inr (omega (arith, none_left, idle.valid))))
          (inr (omega (arith, none_left))) (omega (arith, ap length e, length-wire env.mp m body))
          (omega (arith, ap length e, length-Carried env m im msg body c)) ((im, fits), tt)
          (m, body, 0, (im, fits), omega (arith, length-wire env.mp m body), refl)
          (ap (λ xs. xs ++ bytes) idle.empty
            ∙ e
            ∙ sym (append-nil (wire env.mp m body ++ []) ∙ append-nil (wire env.mp m body))) in
      (t', took, record { valid = valid; empty = left })

-- What a call with a callback comes to, over the client's connection `tc` and the server's `ts`.
pub record Exchanged (env : Env) (uv : UvQuery → TcpConnection.World → ℤ) (enobufs me : ℕ)
    (send_ret : ℤ) (waiting : Waiting) (service method : List ℕ) (request response : Option ℕ)
    (p cb s : ℕ) (answer : List ℕ) (w v : World) (tc ts : TcpConnection.World) : Type 0 where
  pub packet : IoBufImp
  pub reply : IoBufImp
  pub calling : World
  pub serving : World
  pub done_world : World
  pub back : World
  pub ts' : TcpConnection.World
  pub tc' : TcpConnection.World
  -- the call returns 0, with one packet more
  pub call :
      call_method env waiting (some service) (some method) request response (some p) w
      ≡ some (pos 0, calling)
  pub call_events : calling.events ≡ w.events ++ (sent packet ∷ [])
  -- the server's connection reads it, and its channel calls the service's method, once
  pub serves :
      reading env uv enobufs me send_ret (contents packet) ts v
      ≡ some (record { conn = up ts'; state = some serving })
  pub server_idle : IsIdle ts'
  pub serve_events :
      let mid = (env.service s).find_method (take name_max method) in
      serving.events
      ≡ v.events
        ++ (called s mid
              ((env.service s).new_request mid)
              ((env.service s).new_response mid)
              v.next_ctrl
            ∷ [])
  -- the controller that the service has leads `done` to the request's id
  pub bound : (serving.ctrls v.next_ctrl).callback ≡ some (next_id w)
  -- the service reports, and the answer is sent
  pub answers : done env (next_id w) v.next_ctrl serving ≡ some done_world
  pub done_events : done_world.events ≡ serving.events ++ (sent reply ∷ [])
  -- the client's connection reads it, and its channel runs the callback of the call
  pub returns :
      reading env uv enobufs me send_ret (contents reply) tc calling
      ≡ some (record { conn = up tc'; state = some (env.user cb back) })
  pub client_idle : IsIdle tc'
  pub return_events : back.events ≡ calling.events ++ (completed p ∷ [])
  -- the request is gone, and the controller has the answer's code
  pub requests : back.requests ≡ w.requests
  pub code : (back.ctrls p).code ≡ response_code env response enoerror answer

-- A call with a callback, under an id that is not in use, on a connected client, for a service and a
-- method that the server has and with a request that it can read, where both connections are up and
-- have nothing left in their buffers, and each packet comes in one read: the server's connection
-- takes the packet in, and its channel calls the method once; when the service reports, without an
-- error, through the callback it was given, the client's connection takes the answer in, and the
-- client's callback is called once; the request is gone from the table, the controller's code is 0,
-- or the code for a response that cannot be read, and both connections are up, with nothing left in
-- their buffers. (Both connections take the packets, and the messages fit them.)
pub call_method-Exchanged :
    (env : Env) (uv : UvQuery → TcpConnection.World → ℤ) (enobufs me : ℕ) (send_ret : ℤ)
    (waiting : Waiting) (service method : List ℕ) (request response : Option ℕ) (p cb : ℕ)
    (w : World) (o : IsOrdinary w service method p) (body answer : List ℕ) (s : ℕ) (v : World)
    (tc ts : TcpConnection.World)
    → let mid = (env.service s).find_method (take name_max method) in
      (w.ctrls p).callback ≡ some cb
      → lookup (next_id w) w.requests ≡ none
      → Accepts env
      → Carried env
          (meta env waiting service method request response p w o)
          (meta-IsMeta env waiting service method request response p w o)
          request
          body
      → Serves env v (take name_max service) (take name_max method) body s
      → Carried env
          (response_meta (next_id w) enoerror)
          (response_meta-IsMeta (next_id w) enoerror (next_id-lt w) (omega arith))
          ((env.service s).new_response mid)
          answer
      → IsIdle tc
      → IsIdle ts
      → Exchanged env uv enobufs me send_ret waiting service method request response p cb s answer w
          v tc ts
call_method-Exchanged env uv enobufs me send_ret waiting service method request response p cb w o
      body answer s v tc ts e fresh a c h d ic is =
    let mid = (env.service s).find_method (take name_max method) in
    let (b, called0, held) =
      call_async_world env waiting service method request response p w o body e a c in
    let w1 = calling env waiting service method request response p w o b in
    let (ts', took, server_idle) =
      arrive_packet env uv enobufs me send_ret _
        (meta-IsMeta env waiting service method request response p w o) request body (contents b) ts
        v c held is in
    let (v2, answers, answered) =
      done_lem env (next_id w) s mid ((env.service s).new_request mid) v answer (next_id-lt w) a
        d in
    let (tc', took2, client_idle) =
      arrive_packet env uv enobufs me send_ret _
        (response_meta-IsMeta (next_id w) enoerror (next_id-lt w) (omega arith))
        ((env.service s).new_response mid) answer (contents answered.packet) tc w1 d answered.bytes
        ic in
    record {
      packet = b;
      reply = answered.packet;
      calling = w1;
      serving = invoke env (next_id w) s mid ((env.service s).new_request mid) v;
      done_world = v2;
      back = emit (completed p) (taken env waiting service method request response p w o b answer);
      ts' = ts';
      tc' = tc';
      call = called0;
      call_events = refl;
      serves =
          took
          ∙ ap (λ x. some (record { conn = up ts'; state = x }))
              (process-request_meta env true (next_id w) service method body v
                ∙ process_request-Serves env (next_id w) v (take name_max service)
                    (take name_max method) body s h);
      server_idle = server_idle;
      serve_events = invoke-events env (next_id w) s mid ((env.service s).new_request mid) v;
      bound =
          ap (λ k. k.callback)
            (invoke-ctrl env (next_id w) s mid ((env.service s).new_request mid) v);
      answers = answers;
      done_events = ap (λ u. u.events) answered.world;
      returns =
          took2
          ∙ ap (λ x. some (record { conn = up tc'; state = x }))
              (process-response_meta env true (next_id w) enoerror answer w1
                ∙ ap some (completes env waiting service method request response p w o b answer e));
      client_idle = client_idle;
      return_events = refl;
      requests = erase-insert (next_id w) p w.requests fresh;
      code = taken-code env waiting service method request response p w o b answer;
    }
