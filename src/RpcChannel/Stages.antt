-- ===== src/RpcChannel/Stages.antt =====
-- The stages of a call: the bytes that come, the service that is called, the answer.
use sdpf.Prelude.{
  ℕ, ◌+◌, ◌^◌, ◌<◌, ◌≡◌, refl, sym, ap, ◌∙◌, subst, Bool, true, false, Option, some, List, [], ◌∷◌,
  ◌++◌, append-nil, length, arith, ℤ, is_zero, is_negative, take, if◌then◌else◌,
}
use sdpf.IoBuf.{IoBufImp, readable_bytes}
use sdpf.IoBuf.Invariant.{contents}
use sdpf.Dispatcher.{MetaRpc, blank}
use sdpf.Dispatcher.Roundtrip.{IsMeta}
use sdpf.Frame.{Received}
use sdpf.Frame.Wire.{wire, length-wire}
use sdpf.Frame.Receiving.{wires, on_recv-wires}
use sdpf.RpcChannel.{
  World, Env, sent, called, completed, method_notify, enoerror, emethodcall, emit, response_meta,
}
use sdpf.RpcController
use sdpf.Frame.{same_bytes}
use sdpf.RpcChannel.Client.{Waiting, response_code, request_meta, name_max, process_response}
use sdpf.RpcChannel.Server.{
  find_svc, is_garbled, serve_found, serve_method, serve, invoke, process_request, done,
}
use sdpf.RpcChannel.Serving.{found_lem, Answered, response_meta-IsMeta, done_answers}
use sdpf.RpcChannel.Pending.{Carried, Accepts, finish_completed}
use sdpf.RpcChannel.Delivery.{delivered, delivered-IsValid, contents-delivered, Carried-Carries}
use sdpf.RpcChannel.Calls.{IsOrdinary, next_id, entered, entered_code, lookup-entered, ==_refl}
use sdpf.RpcChannel.Responses.{answered, process_response_ordinary}
use sdpf.RpcChannel.Processing.{process, process_next, on_recv}

-- The bytes of one message come: the channel processes it, and keeps nothing.
pub received_one :
    (env : Env) (memory : Bool) (m : MetaRpc) (im : IsMeta m) (msg : Option ℕ) (body bytes : List ℕ)
    (w : World)
    → Carried env m im msg body
    → bytes ≡ wire env.mp m body
    → (r : Received (Option World)) × (on_recv env memory (length bytes + 1) (delivered bytes) w
        ≡ some r)
      × (r.state ≡ process env memory m body w)
      × (r.stopped ≡ false)
      × (contents r.buffer ≡ [])
unfolding on_recv wires readable_bytes
received_one env memory m im msg body bytes w c e =
    let fits = Carried-Carries env m im msg body c in
    let valid = delivered-IsValid bytes (omega (arith, ap length e, length-wire env.mp m body)) in
    let (r, run, state, going, left, v) =
      on_recv-wires env.mp (process_next env memory) ((m, body) ∷ []) [] (length bytes + 1)
        (delivered bytes) (some w) valid ((im, fits), tt)
        (m, body, 0, (im, fits), omega (arith, length-wire env.mp m body), refl)
        (contents-delivered bytes
          ∙ e
          ∙ sym (append-nil (wire env.mp m body ++ []) ∙ append-nil (wire env.mp m body)))
        (omega arith) in
    (r, run, state, going, left)

-- The server has the service and the method, and can read the request.
pub record Serves (env : Env) (v : World) (service method body : List ℕ) (s : ℕ) : Type 0 where
  pub services : List ℕ
  pub has_services : v.services ≡ some services
  pub found : find_svc env.service service services ≡ some s
  pub method_found : is_negative ((env.service s).find_method method) ≡ false
  pub ordinary : same_bytes method method_notify ≡ false
  pub reads :
      is_garbled env ((env.service s).new_request ((env.service s).find_method method)) body ≡ false

pub process_request-Serves :
    (env : Env) (id : ℕ) (v : World) (service method body : List ℕ) (s : ℕ)
    → Serves env v service method body s
    → process_request env true id service method body v
      ≡ some (
          invoke env id s
            ((env.service s).find_method method)
            ((env.service s).new_request ((env.service s).find_method method))
            v)
unfolding serve_found serve_method serve
process_request-Serves env id v service method body s h =
    found_lem env true id service method body h.services v h.has_services (some s) h.found
    ∙ rw h.method_found (rw h.ordinary (rw h.reads refl))

pub process-request_meta :
    (env : Env) (memory : Bool) (id : ℕ) (service method body : List ℕ) (v : World)
    → process env memory (request_meta id service method) body v
      ≡ process_request env memory id (take name_max service) (take name_max method) body v
unfolding process request_meta blank
process-request_meta env memory id service method body v = refl

pub process-response_meta :
    (env : Env) (memory : Bool) (id : ℕ) (code : ℤ) (body : List ℕ) (v : World)
    → process env memory (response_meta id code) body v ≡ some (process_response env id code body v)
unfolding process response_meta blank
process-response_meta env memory id code body v = refl

-- The controller that the service is given.
pub invoke-ctrl :
    (env : Env) (id s : ℕ) (mid : ℤ) (request : Option ℕ) (v : World)
    → (invoke env id s mid request v).ctrls v.next_ctrl
      ≡ RpcController.done
          (RpcController.resp RpcController.create ((env.service s).new_response mid))
          (some id)
unfolding invoke
invoke-ctrl env id s mid request v = rw (==_refl v.next_ctrl)

pub invoke-events :
    (env : Env) (id s : ℕ) (mid : ℤ) (request : Option ℕ) (v : World)
    → (invoke env id s mid request v).events
      ≡ v.events ++ (called s mid request ((env.service s).new_response mid) v.next_ctrl ∷ [])
unfolding invoke
invoke-events env id s mid request v = refl

-- The service reports through `done`, having set no error.
pub done_lem :
    (env : Env) (id s : ℕ) (mid : ℤ) (request : Option ℕ) (v : World) (answer : List ℕ)
    (h : id < 2 ^ 32)
    → Accepts env
    → Carried env
        (response_meta id enoerror)
        (response_meta-IsMeta id enoerror h (omega arith))
        ((env.service s).new_response mid)
        answer
    → (v2 : World) × (done env id v.next_ctrl (invoke env id s mid request v) ≡ some v2)
      × Answered env id enoerror answer (invoke env id s mid request v) v2
unfolding RpcController.create
done_lem env id s mid request v answer h a c =
    let ctrl = invoke-ctrl env id s mid request v in
    done_answers env id v.next_ctrl (invoke env id s mid request v) answer enoerror h (omega arith)
      (sym (ap (λ k. if is_zero k.code then enoerror else emethodcall) ctrl)) a
      (subst
        (λ r.
          Carried env (response_meta id enoerror) (response_meta-IsMeta id enoerror h (omega arith))
            r answer)
        (sym (ap (λ k. k.response) ctrl)) c)

-- The answer comes to the caller, whose request waits under the id.
module _ (env : Env) (waiting : Waiting) (service method : List ℕ) (request response : Option ℕ)
    (p : ℕ) (w : World) (o : IsOrdinary w service method p) (b : IoBufImp) where
  abbrev pub calling : World
  calling = emit (sent b) (entered p response w)

  -- The caller's world when the answer has been taken, before the callback runs.
  abbrev pub taken : List ℕ → World
  taken answer =
      answered env (next_id w) p calling
        (lookup-entered env waiting service method request response p w o) enoerror answer

  pub completes :
      {cb : ℕ} (answer : List ℕ)
      → (w.ctrls p).callback ≡ some cb
      → process_response env (next_id w) enoerror answer calling
        ≡ env.user cb (emit (completed p) (taken answer))
  completes {cb} answer e =
      process_response_ordinary env (next_id w) p calling
        (lookup-entered env waiting service method request response p w o) enoerror answer
        (entered_code env waiting service method request response p w o)
      ∙ finish_completed env p cb (taken answer) (rw (==_refl p) e)

  pub taken-code :
      (answer : List ℕ) → ((taken answer).ctrls p).code ≡ response_code env response enoerror answer
  taken-code answer = rw (==_refl p) refl
