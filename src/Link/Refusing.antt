-- ===== src/Link/Refusing.antt =====
-- A call that the server turns down, over two connections.
use sdpf.Prelude.{
  ℕ, ◌≡◌, refl, ap, ◌∙◌, true, Option, none, some, List, [], ◌∷◌, ◌++◌, lookup, erase-insert, ℤ,
  pos, take,
}
use sdpf.IoBuf.{IoBufImp}
use sdpf.IoBuf.Invariant.{contents}
use sdpf.TcpConnection.{UvQuery}
use sdpf.TcpConnection
use sdpf.RpcChannel.{World, Env, sent, completed, emit, response_meta}
use sdpf.RpcChannel.Client.{Waiting, call_method, response_code, name_max}
use sdpf.RpcChannel.Serving.{
  response_meta-IsMeta, Refused, Refused-IsInt32, process_request-Refused,
}
use sdpf.RpcChannel.Pending.{Carried, Accepts, finish_completed}
use sdpf.RpcChannel.Calls.{
  IsOrdinary, meta, meta-IsMeta, next_id, next_id-lt, entered_code, lookup-entered,
  call_async_world, ==_refl,
}
use sdpf.RpcChannel.Responses.{answered, process_response_ordinary}
use sdpf.RpcChannel.Stages.{process-request_meta, process-response_meta, calling}
use sdpf.Link.Reading.{up}
use sdpf.Link.Calling.{IsIdle, reading, arrive_packet}

-- The code of a response without a body is the one that came.
response_code_empty :
    (env : Env) (response : Option ℕ) (code : ℤ) → response_code env response code [] ≡ code
unfolding response_code
response_code_empty env none code = refl
response_code_empty env (some r) code = refl

-- What a refused call with a callback comes to.
pub record TurnedDown (env : Env) (uv : UvQuery → TcpConnection.World → ℤ) (enobufs me : ℕ)
    (send_ret : ℤ) (waiting : Waiting) (service method : List ℕ) (request response : Option ℕ)
    (p cb : ℕ) (code : ℤ) (w v : World) (tc ts : TcpConnection.World) : Type 0 where
  pub packet : IoBufImp
  pub reply : IoBufImp
  pub calling : World
  pub back : World
  pub ts' : TcpConnection.World
  pub tc' : TcpConnection.World
  -- the call returns 0, with one packet more
  pub call :
      call_method env waiting (some service) (some method) request response (some p) w
      ≡ some (pos 0, calling)
  pub call_events : calling.events ≡ w.events ++ (sent packet ∷ [])
  -- the server's connection reads it, and its channel does nothing but answer
  pub refuses :
      reading env uv enobufs me send_ret (contents packet) ts v
      ≡ some (record { conn = up ts'; state = some (emit (sent reply) v) })
  pub server_idle : IsIdle ts'
  -- the client's connection reads the answer, and its channel runs the callback of the call
  pub returns :
      reading env uv enobufs me send_ret (contents reply) tc calling
      ≡ some (record { conn = up tc'; state = some (env.user cb back) })
  pub client_idle : IsIdle tc'
  pub return_events : back.events ≡ calling.events ++ (completed p ∷ [])
  -- the request is gone, and the controller has the code of the refusal
  pub requests : back.requests ≡ w.requests
  pub told : (back.ctrls p).code ≡ code

-- A call with a callback, under an id that is not in use, on a connected client, which the server
-- turns down because it does not know the service or the method or cannot read the body: the
-- server sends one packet and changes nothing else; when that has come, the client's callback is
-- called once, the request is gone from the table, and the controller's code is the one for the
-- reason. (Each packet comes in one read, on a connection that is up and has nothing left in its
-- buffer; both connections take the packets, and the messages fit them.)
pub call_method-TurnedDown :
    (env : Env) (uv : UvQuery → TcpConnection.World → ℤ) (enobufs me : ℕ) (send_ret : ℤ)
    (waiting : Waiting) (service method : List ℕ) (request response : Option ℕ) (p cb : ℕ)
    (w : World) (o : IsOrdinary w service method p) (body : List ℕ) (code : ℤ) (ss : List ℕ)
    (v : World) (tc ts : TcpConnection.World)
    (r : Refused env ss (take name_max service) (take name_max method) body code)
    → (w.ctrls p).callback ≡ some cb
    → lookup (next_id w) w.requests ≡ none
    → Accepts env
    → Carried env
        (meta env waiting service method request response p w o)
        (meta-IsMeta env waiting service method request response p w o)
        request
        body
    → v.services ≡ some ss
    → Carried env
        (response_meta (next_id w) code)
        (response_meta-IsMeta (next_id w) code (next_id-lt w) (Refused-IsInt32 r))
        none
        []
    → IsIdle tc
    → IsIdle ts
    → TurnedDown env uv enobufs me send_ret waiting service method request response p cb code w v tc
        ts
call_method-TurnedDown env uv enobufs me send_ret waiting service method request response p cb w o
      body code ss v tc ts r e fresh a c server d ic is =
    let id = next_id w in
    let im = response_meta-IsMeta id code (next_id-lt w) (Refused-IsInt32 r) in
    let (b, called, held) =
      call_async_world env waiting service method request response p w o body e a c in
    let w1 = calling env waiting service method request response p w o b in
    let (ts', took, server_idle) =
      arrive_packet env uv enobufs me send_ret _
        (meta-IsMeta env waiting service method request response p w o) request body (contents b) ts
        v c held is in
    let (v', refused, reply) =
      process_request-Refused env true id (take name_max service) (take name_max method) body ss v
        server code (next_id-lt w) r a d in
    let (tc', took2, client_idle) =
      arrive_packet env uv enobufs me send_ret _ im none [] (contents reply.packet) tc w1 d
        reply.bytes ic in
    let waits = lookup-entered env waiting service method request response p w o in
    let w2 = answered env id p w1 waits code [] in
    record {
      packet = b;
      reply = reply.packet;
      calling = w1;
      back = emit (completed p) w2;
      ts' = ts';
      tc' = tc';
      call = called;
      call_events = refl;
      refuses =
          took
          ∙ ap (λ x. some (record { conn = up ts'; state = x }))
              (process-request_meta env true id service method body v
                ∙ refused
                ∙ ap some reply.world);
      server_idle = server_idle;
      returns =
          took2
          ∙ ap (λ x. some (record { conn = up tc'; state = x }))
              (process-response_meta env true id code [] w1
                ∙ ap some (
                    process_response_ordinary env id p w1 waits code []
                      (entered_code env waiting service method request response p w o)
                    ∙ finish_completed env p cb w2 (rw (==_refl p) e)));
      client_idle = client_idle;
      return_events = refl;
      requests = erase-insert id p w.requests fresh;
      told = rw (==_refl p) (response_code_empty env response code);
    }
