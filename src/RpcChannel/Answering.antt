-- ===== src/RpcChannel/Answering.antt =====
-- A call from its start to its end.
use sdpf.Prelude.{
  ℕ, ◌+◌, ◌≡◌, refl, ap, ◌∙◌, true, Option, none, some, List, [], ◌∷◌, ◌++◌, lookup, erase-insert,
  length, arith, ℤ, pos, take,
}
use sdpf.IoBuf.{IoBufImp}
use sdpf.IoBuf.Invariant.{contents}
use sdpf.Frame.{Received}
use sdpf.RpcChannel.{World, Env, sent, called, completed, enoerror, emit, response_meta}
use sdpf.RpcChannel.Client.{Waiting, call_method, response_code, name_max}
use sdpf.RpcChannel.Server.{invoke, done}
use sdpf.RpcChannel.Serving.{response_meta-IsMeta}
use sdpf.RpcChannel.Pending.{Carried, Accepts}
use sdpf.RpcChannel.Delivery.{delivered}
use sdpf.RpcChannel.Calls.{IsOrdinary, meta, meta-IsMeta, next_id, next_id-lt, call_async_world}
use sdpf.RpcChannel.Processing.{on_recv}
use sdpf.RpcChannel.Stages.{
  received_one, Serves, process_request-Serves, process-request_meta, process-response_meta,
  invoke-ctrl, invoke-events, done_lem, calling, taken, completes, taken-code,
}

-- What a call with a callback comes to: the states of the client and the server, and the packets.
pub record Answering (env : Env) (waiting : Waiting) (service method : List ℕ)
    (request response : Option ℕ) (p cb s : ℕ) (mid : ℤ) (answer : List ℕ) (w v : World)
    : Type 0 where
  pub packet : IoBufImp
  pub reply : IoBufImp
  pub calling : World
  pub serving : World
  pub done_world : World
  pub back : World
  pub received : Received (Option World)
  pub returned : Received (Option World)
  -- the call returns 0, with one packet more
  pub call :
      call_method env waiting (some service) (some method) request response (some p) w
      ≡ some (pos 0, calling)
  pub call_events : calling.events ≡ w.events ++ (sent packet ∷ [])
  -- the server takes its bytes, and calls the service's method once
  pub receive :
      on_recv env true (length (contents packet) + 1) (delivered (contents packet)) v
      ≡ some received
  pub receive_state : received.state ≡ some serving
  pub serve_events :
      serving.events
      ≡ v.events
        ++ (called s mid
              ((env.service s).new_request mid)
              ((env.service s).new_response mid)
              v.next_ctrl
            ∷ [])
  -- the controller that the service has leads `done` to the request's id
  pub bound : (serving.ctrls v.next_ctrl).callback ≡ some (next_id w)
  pub answers : done env (next_id w) v.next_ctrl serving ≡ some done_world
  pub done_events : done_world.events ≡ serving.events ++ (sent reply ∷ [])
  -- the client takes the answer's bytes, and runs the callback of the call
  pub return :
      on_recv env true (length (contents reply) + 1) (delivered (contents reply)) calling
      ≡ some returned
  pub return_state : returned.state ≡ some (env.user cb back)
  pub return_events : back.events ≡ (w.events ++ (sent packet ∷ [])) ++ (completed p ∷ [])
  -- the request is gone, and the controller has the answer's code
  pub requests : back.requests ≡ w.requests
  pub code : (back.ctrls p).code ≡ response_code env response enoerror answer

-- A call with a callback, under an id that is not in use, on a connected client, for a service and a
-- method that the server has, and with a request that it can read: the server calls the method once, with the request that came; when
-- the service reports, without an error, through the callback it was given, the client's callback is
-- called once, the request is gone from the table, and the controller's code is 0, or the code for
-- a response that cannot be read. (Both connections take the packets, and the messages fit them.)
pub call_method-Answering :
    (env : Env) (waiting : Waiting) (service method : List ℕ) (request response : Option ℕ)
    (p cb : ℕ) (w : World) (o : IsOrdinary w service method p) (body answer : List ℕ) (s : ℕ)
    (v : World)
    → let mid = (env.service s).find_method (take name_max method) in
      (w.ctrls p).callback ≡ some cb
      → lookup (next_id w) w.requests ≡ none
      → Accepts env
      → Carried env
          (meta env waiting service method request response p w o)
          (meta-IsMeta env waiting service method request response p w o)
          request
          body
      → Serves env v (take name_max service) (take name_max method) body s
      → Carried env
          (response_meta (next_id w) enoerror)
          (response_meta-IsMeta (next_id w) enoerror (next_id-lt w) (omega arith))
          ((env.service s).new_response mid)
          answer
      → Answering env waiting service method request response p cb s mid answer w v
call_method-Answering env waiting service method request response p cb w o body answer s v e fresh a
      c h d =
    let mid = (env.service s).find_method (take name_max method) in
    let (b, called0, held) =
      call_async_world env waiting service method request response p w o body e a c in
    let w1 = calling env waiting service method request response p w o b in
    let (r, run, state, going, left) =
      received_one env true _ (meta-IsMeta env waiting service method request response p w o)
        request body (contents b) v c held in
    let v1 = invoke env (next_id w) s mid ((env.service s).new_request mid) v in
    let (v2, answers, answered2) =
      done_lem env (next_id w) s mid ((env.service s).new_request mid) v answer (next_id-lt w) a
        d in
    let (r2, run2, state2, going2, left2) =
      received_one env true _
        (response_meta-IsMeta (next_id w) enoerror (next_id-lt w) (omega arith))
        ((env.service s).new_response mid) answer (contents answered2.packet) w1 d
        answered2.bytes in
    record {
      packet = b;
      reply = answered2.packet;
      calling = w1;
      serving = v1;
      done_world = v2;
      back = emit (completed p) (taken env waiting service method request response p w o b answer);
      received = r;
      returned = r2;
      call = called0;
      call_events = refl;
      receive = run;
      receive_state =
          state
          ∙ process-request_meta env true (next_id w) service method body v
          ∙ process_request-Serves env (next_id w) v (take name_max service) (take name_max method)
              body s h;
      serve_events = invoke-events env (next_id w) s mid ((env.service s).new_request mid) v;
      bound =
          ap (λ k. k.callback)
            (invoke-ctrl env (next_id w) s mid ((env.service s).new_request mid) v);
      answers = answers;
      done_events = ap (λ u. u.events) answered2.world;
      return = run2;
      return_state =
          state2
          ∙ process-response_meta env true (next_id w) enoerror answer w1
          ∙ ap some (completes env waiting service method request response p w o b answer e);
      return_events = refl;
      requests = erase-insert (next_id w) p w.requests fresh;
      code = taken-code env waiting service method request response p w o b answer;
    }
