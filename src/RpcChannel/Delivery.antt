-- ===== src/RpcChannel/Delivery.antt =====
-- From one end to the other: what a channel sends is what the other channel's `parse` takes out.
use sdpf.Prelude.{
  ℕ, ◌-◌, ◌^◌, ◌<◌, ◌≡◌, sym, ap, ◌∙◌, Option, none, some, List, [], ◌∷◌, ◌++◌, length, arith, ℤ,
  pos, take_all, append-nil, if◌then◌else◌, is_zero,
}
use sdpf.IoBuf.{IoBufImp}
use sdpf.IoBuf.Invariant.{IsValid, contents}
use sdpf.Dispatcher.{MetaRpc}
use sdpf.Dispatcher.Roundtrip.{IsMeta, IsInt32}
use sdpf.Frame.{parse, message, u16_mod}
use sdpf.Frame.Wire.{wire, Carries, length-wire}
use sdpf.Frame.Parsing.{parse-wire}
use sdpf.RpcChannel.{World, Env, sent, emit, response_meta, enoerror, emethodcall}
use sdpf.RpcChannel.Client.{Waiting, call_method}
use sdpf.RpcChannel.Server.{done}
use sdpf.RpcChannel.Pending.{Carried, Accepts}
use sdpf.RpcChannel.Calls.{IsOrdinary, meta, meta-IsMeta, call_async_sent}
use sdpf.RpcChannel.Serving.{response_meta-IsMeta, done_answers}

-- A receive buffer in which exactly these bytes have come.
abbrev pub delivered : List ℕ → IoBufImp
delivered bytes = record { buff = bytes; read_index = 0; write_index = length bytes }

pub delivered-IsValid : (bytes : List ℕ) → length bytes < u16_mod → IsValid (delivered bytes)
delivered-IsValid bytes h = record {
  ordered = omega arith;
  within = omega arith;
  small = omega arith;
}

pub contents-delivered : (bytes : List ℕ) → contents (delivered bytes) ≡ bytes
contents-delivered bytes = take_all (length bytes - 0) bytes (omega arith)

-- A packet that `send_packet` can build is short enough for the lengths of its header.
pub Carried-Carries :
    (env : Env) (m : MetaRpc) (im : IsMeta m) (msg : Option ℕ) (body : List ℕ)
    → Carried env m im msg body
    → Carries env.mp m body
Carried-Carries env m im none body (room, e) = omega (arith, ap length e)
Carried-Carries env m im (some r) body (e, p, room) = omega arith

parse-delivered :
    (env : Env) (m : MetaRpc) (im : IsMeta m) (msg : Option ℕ) (body bytes : List ℕ)
    → Carried env m im msg body
    → bytes ≡ wire env.mp m body
    → parse env.mp (delivered bytes) ≡ some (message (length bytes) m body)
parse-delivered env m im msg body bytes c e =
    let fits = Carried-Carries env m im msg body c in
    parse-wire env.mp m body im fits (delivered bytes) []
      (delivered-IsValid bytes (omega (arith, ap length e, length-wire env.mp m body)))
      (contents-delivered bytes ∙ e ∙ sym (append-nil (wire env.mp m body)))
    ∙ ap (λ n. some (message n m body)) (sym (ap length e))

-- An ordinary call with a callback, on a connected client whose connection takes the packet and
-- whose serialized request fits one, returns 0 and sends one packet. Once its bytes have come, the
-- other end's `parse` takes out of them the request with the next id of the caller, the service, the
-- method and the serialized body.
pub parse-call_method :
    (env : Env) (waiting : Waiting) (service method : List ℕ) (request response : Option ℕ) (p : ℕ)
    (w : World) (o : IsOrdinary w service method p) {cb : ℕ} (body : List ℕ)
    → (w.ctrls p).callback ≡ some cb
    → Accepts env
    → Carried env
        (meta env waiting service method request response p w o)
        (meta-IsMeta env waiting service method request response p w o)
        request
        body
    → (b : IoBufImp) × (w' : World) × (call_method env waiting
          (some service)
          (some method)
          request
          response
          (some p)
          w
        ≡ some (pos 0, w'))
      × (w'.events ≡ w.events ++ (sent b ∷ []))
      × (parse env.mp (delivered (contents b))
          ≡ some (
              message
                (length (contents b))
                (meta env waiting service method request response p w o)
                body))
parse-call_method env waiting service method request response p w o body e a c =
    let (b, w', call, table, id, events, bytes) =
      call_async_sent env waiting service method request response p w o body e a c in
    (
      b,
      w',
      call,
      events,
      parse-delivered env _ (meta-IsMeta env waiting service method request response p w o) request
          body (contents b) c bytes,
    )

-- What a service reports through `done`, where the serialized result fits a packet and the
-- connection takes it, is sent in one packet. Once its bytes have come, the caller's `parse` takes out
-- of them the response with the request's id, the serialized result, and code 0, or, if the service
-- has set an error, the code for a failed method.
pub parse-done :
    (env : Env) (id p : ℕ) (w : World) (body : List ℕ) (code : ℤ) (h : id < 2 ^ 32)
    (k : IsInt32 code)
    → code ≡ (if is_zero (w.ctrls p).code then enoerror else emethodcall)
    → Accepts env
    → Carried env
        (response_meta id code)
        (response_meta-IsMeta id code h k)
        (w.ctrls p).response
        body
    → (b : IoBufImp) × (done env id p w ≡ some (emit (sent b) w))
      × (parse env.mp (delivered (contents b))
          ≡ some (message (length (contents b)) (response_meta id code) body))
parse-done env id p w body code h k e a c =
    let (w', answers, answered) = done_answers env id p w body code h k e a c in
    (
      answered.packet,
      answers ∙ ap some answered.world,
      parse-delivered env (response_meta id code) (response_meta-IsMeta id code h k)
          (w.ctrls p).response body (contents answered.packet) c answered.bytes,
    )
