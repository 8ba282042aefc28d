-- ===== src/RpcChannel/Server.antt =====
-- The server's side of src/RpcChannel.cpp: `process_request`, `done`, `notify`, `find_svc`.
--
-- The callback that `process_request` binds is `done` with the request's id and the controller; in a
-- server's controller the callback's number is that id. `none` is undefined behaviour: a null
-- `services_` that is read.
use sdpf.Prelude.{
  ℕ, ◌+◌, Bool, true, false, not, ◌&&◌, Option, none, some, List, [], ◌∷◌, ◌==◌, ltb, length,
  if◌then◌else◌, ℤ, pos, neg, is_zero, is_negative, ◌>>=◌, insert,
}
use sdpf.IoScheduler.{is_none}
use sdpf.Frame.{same_bytes}
use sdpf.RpcController
use sdpf.RpcChannel.{
  World, Env, Service, called, enoerror, enoservice, enomethod, erequest, emethodcall, einternal,
  method_notify, is_connected, emit, set_ctrl, send_resp,
}

-- `strncmp(name, full, strlen(name)) == 0`
unfoldable pub starts_with : List ℕ → List ℕ → Bool
starts_with [] full = true
starts_with (x ∷ xs) [] = false
starts_with (x ∷ xs) (y ∷ ys) = x == y && starts_with xs ys

unfoldable pub find_svc : (ℕ → Service) → List ℕ → List ℕ → Option ℕ
find_svc service name [] = none
find_svc service name (s ∷ ss) =
    if starts_with name (service s).name then some s else find_svc service name ss

-- The id under which a service stands in `requests_`.
unfoldable pub find_notify : ℕ → List (ℕ × ℕ) → Option ℕ
find_notify psvc [] = none
find_notify psvc ((id, s) ∷ rs) = if s == psvc then some id else find_notify psvc rs

-- Registering a service for notifications: the first registration stays.
unfoldable pub register : ℕ → ℕ → World → World
register id psvc w =
    if is_none (find_notify psvc w.requests)
    then record w { requests = insert id psvc w.requests }
    else w

-- From `new_response` on: a controller with the response and the bound callback, and the call.
unfoldable pub invoke : Env → ℕ → ℕ → ℤ → Option ℕ → World → World
invoke env id psvc method_id request w =
    let response = (env.service psvc).new_response method_id in
    let c = RpcController.done (RpcController.resp RpcController.create response) (some id) in
    emit (called psvc method_id request response w.next_ctrl)
      (set_ctrl w.next_ctrl c (record w { next_ctrl = w.next_ctrl + 1 }))

-- `len > 0 && nullptr != request`, and the message does not parse.
unfoldable pub is_garbled : Env → Option ℕ → List ℕ → Bool
is_garbled env none body = false
is_garbled env (some r) body = ltb 0 (length body) && not (is_zero (env.deserialize r body))

-- The service and its method are found. The flag is whether `new RpcController` finds memory.
unfoldable pub serve : Env → Bool → ℕ → ℕ → ℤ → List ℕ → World → Option World
serve env memory id psvc method_id body w =
    let request = (env.service psvc).new_request method_id in
    if is_garbled env request body
    then send_resp env id erequest none w
    else if not memory
    then send_resp env id einternal none w
    else some (invoke env id psvc method_id request w)

unfoldable pub serve_method : Env → Bool → ℕ → ℕ → List ℕ → List ℕ → World → Option World
serve_method env memory id psvc method body w =
    let method_id = (env.service psvc).find_method method in
    if is_negative method_id
    then send_resp env id enomethod none w
    else if same_bytes method method_notify && length body == 0
    then some (register id psvc w)
    else serve env memory id psvc method_id body w

unfoldable pub serve_found : Env → Bool → ℕ → List ℕ → List ℕ → World → Option ℕ → Option World
serve_found env memory id method body w none = send_resp env id enoservice none w
serve_found env memory id method body w (some psvc) = serve_method env memory id psvc method body w

unfoldable pub process_request : Env → Bool → ℕ → List ℕ → List ℕ → List ℕ → World → Option World
process_request env memory id service method body w = elim w.services [
  | none ↦ none
  | some ss ↦ serve_found env memory id method body w (find_svc env.service service ss)
]

-- `RpcChannelImp::done`, which the service calls when it has its result. The controller and the
-- response are deleted behind it.
unfoldable pub done : Env → ℕ → ℕ → World → Option World
done env id p w =
    send_resp env id (if RpcController.failed (w.ctrls p) then emethodcall else enoerror)
      (w.ctrls p).response w

-- `notify`; `none` is a null service or message.
unfoldable pub notify_found : Env → ℕ → World → Option ℕ → Option (ℤ × World)
notify_found env msg w none = some (neg 3, w)
notify_found env msg w (some id) = send_resp env id enoerror (some msg) w >>= λ w'. some (pos 0, w')

unfoldable pub notify : Env → Option ℕ → Option ℕ → World → Option (ℤ × World)
notify env (some psvc) (some msg) w =
    if not (is_connected w)
    then some (neg 2, w)
    else if is_none w.services
    then some (neg 2, w)
    else notify_found env msg w (find_notify psvc w.requests)
notify env _ _ w = some (neg 1, w)
