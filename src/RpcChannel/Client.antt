-- ===== src/RpcChannel/Client.antt =====
-- The client's side of src/RpcChannel.cpp: `call_method`, `process_response`, `on_close`.
use sdpf.Prelude.{
  ℕ, ◌+◌, ◌%◌, ◌^◌, Bool, false, not, ◌&&◌, ◌||◌, Option, none, some, List, [], ◌∷◌, ltb, length,
  if◌then◌else◌, take, ℤ, pos, neg, is_zero, ◌>>=◌, insert,
}
use sdpf.IoScheduler.{is_none}
use sdpf.Dispatcher.{MetaRpc, blank, rpctype_request}
use sdpf.Frame.{same_bytes}
use sdpf.RpcController.{RpcControllerImp}
use sdpf.RpcController
use sdpf.RpcChannel.{
  World, Env, closed, eresponse, enetwork, method_notify, enotify_mark, is_connected, emit,
  set_ctrl, set_ec, set_text, set_resp, finish, remove_request, send_packet,
}

-- `strncpy` of a name into an array of 64 bytes, the last of them zero.
abbrev pub name_max : ℕ
name_max = 63

unfoldable pub request_meta : ℕ → List ℕ → List ℕ → MetaRpc
request_meta id service method = record (blank rpctype_request) {
  relation_id = id;
  service = take name_max service;
  method = take name_max method;
}

-- The search for a notify request of the same service.
unfoldable pub has_notify : (ℕ → RpcControllerImp) → List ℕ → List (ℕ × ℕ) → Bool
has_notify ctrls service [] = false
has_notify ctrls service ((id, p) ∷ rs) =
    (not (is_zero (ctrls p).code) && same_bytes service (ctrls p).message)
    || has_notify ctrls service rs

-- The thread that calls without a callback: how its wait ends, and what the loop does meanwhile.
pub record Waiting : Type 0 where
  pub timeout : Bool
  pub meanwhile : World → World

-- The asynchronous branch.
unfoldable pub call_async : Env → MetaRpc → Option ℕ → World → Option (ℤ × World)
call_async env meta request w = send_packet env meta request w >>= λ r.
    if not (is_zero r.0) then some (neg 4, r.1) else some (pos 0, r.1)

-- The synchronous branch. Its `int ret` is a variable of its own: the outer `ret` stays 0.
unfoldable pub call_sync : Env → Waiting → MetaRpc → Option ℕ → ℕ → World → Option (ℤ × World)
call_sync env waiting meta request p w =
    let locked = set_ctrl p (RpcController.lock (w.ctrls p)) w in
    send_packet env meta request locked >>= λ r.
    let w1 = r.1 in
    if not (is_zero r.0)
    then some (pos 0, set_ctrl p (RpcController.unlock (w1.ctrls p)) w1)
    else let w2 = waiting.meanwhile w1 in
      some (pos 0, set_ctrl p (RpcController.wait (w2.ctrls p) waiting.timeout).1 w2)

-- `if (0 != ret)` behind the two branches.
unfoldable pub give_up : ℕ → ℕ → ℤ × World → ℤ × World
give_up id p (ret, w) =
    if not (is_zero ret)
    then (ret, (remove_request id (set_text p [] (set_ec p (pos 0) w))).1)
    else (ret, w)

-- From the entry in `requests_` on.
unfoldable pub submit : Env → Waiting → MetaRpc → Option ℕ → ℕ → World → Option (ℤ × World)
submit env waiting meta request p w =
    let w1 = record w { requests = insert meta.relation_id p w.requests } in
    (if is_none (w1.ctrls p).callback
      then call_sync env waiting meta request p w1
      else call_async env meta request w1)
    >>= λ r. some (give_up meta.relation_id p r)

-- From `meta.relation_id = ++id_` on.
unfoldable pub enter :
    Env → Waiting → List ℕ → List ℕ → Option ℕ → Option ℕ → ℕ → World → Option (ℤ × World)
enter env waiting service method request response p w =
    let id = (w.id + 1) % 2 ^ 32 in
    let w1 = set_resp p response (record w { id = id }) in
    if not (is_zero (w1.ctrls p).code) && has_notify w1.ctrls service w1.requests
    then some (neg 3, w1)
    else submit env waiting (request_meta id service method) request p w1

-- `call_method` behind the null tests.
unfoldable pub call_named :
    Env → Waiting → List ℕ → List ℕ → Option ℕ → Option ℕ → ℕ → World → Option (ℤ × World)
call_named env waiting service method request response p w =
    if not (is_connected w)
    then some (neg 2, w)
    else if not (is_none w.services)
    then some (neg 3, w)
    else if same_bytes method method_notify
    then (if is_none (w.ctrls p).callback
        then some (neg 3, w)
        else enter env waiting service method request response p
            (set_text p service (set_ec p enotify_mark w)))
    else enter env waiting service method request response p (set_ec p (pos 0) w)

unfoldable pub call_method :
    Env
    → Waiting
    → Option (List ℕ)
    → Option (List ℕ)
    → Option ℕ
    → Option ℕ
    → Option ℕ
    → World
    → Option (ℤ × World)
call_method env waiting (some service) (some method) request response (some p) w =
    call_named env waiting service method request response p w
call_method env waiting _ _ request response _ w = some (neg 1, w)

-- What the client makes of the body of a response, and of the code that came with it.
unfoldable pub response_code : Env → Option ℕ → ℤ → List ℕ → ℤ
response_code env none code body = code
response_code env (some r) code body =
    if ltb 0 (length body) && not (is_zero (env.deserialize r body)) then eresponse else code

-- `if (bnotify)` at the end of `process_response`.
unfoldable pub remark : Bool → ℕ → World → World
remark notify p w = if notify then set_ec p enotify_mark w else w

-- `process_response` for the controller that `remove_request` has found.
unfoldable pub complete : Env → ℕ → ℤ → List ℕ → World → World
complete env p code body w =
    remark (not (is_zero (w.ctrls p).code)) p
      (finish env p (set_ec p (response_code env (w.ctrls p).response code body) w))

unfoldable pub settle : Env → ℤ → List ℕ → Option ℕ × World → World
settle env code body (none, w) = w
settle env code body (some p, w) = complete env p code body w

unfoldable pub process_response : Env → ℕ → ℤ → List ℕ → World → World
process_response env id code body w = settle env code body (remove_request id w)

-- The loop of `on_close` over the pending requests.
unfoldable pub fail_all : Env → List (ℕ × ℕ) → World → World
fail_all env [] w = w
fail_all env ((id, p) ∷ rs) w = fail_all env rs (finish env p (set_ec p enetwork w))

-- `requests_.clear()`, `services_ = nullptr`, and the close callback.
unfoldable pub clear_all : World → World
clear_all w =
    let w' = record w { requests = []; services = none } in
    if w.close_cb then emit closed w' else w'

unfoldable pub on_close : Env → World → World
on_close env w = clear_all (if is_none w.services then fail_all env w.requests w else w)
