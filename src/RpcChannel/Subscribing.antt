-- ===== src/RpcChannel/Subscribing.antt =====
-- A client's notify request, and the notifications that the server sends it afterwards.
use sdpf.Prelude.{
  ℕ, ◌^◌, ◌<◌, ◌≡◌, refl, ap, ◌∙◌, Bool, true, false, Option, none, some, List, [], arith, ℤ, pos,
  neg, is_zero, Bool-cases, is_negative, ◌>>=◌, insert, Option-cases, inl, inr,
}
use sdpf.IoScheduler.{is_none}
use sdpf.RpcChannel.{World, Env, is_connected, enoerror, method_notify, response_meta}
use sdpf.RpcChannel.Server.{
  find_svc, find_notify, register, serve_found, serve_method, process_request, notify, notify_found,
}
use sdpf.RpcChannel.Calls.{is_connected_lem, ==_refl}
use sdpf.RpcChannel.Pending.{Carried, Accepts}
use sdpf.RpcChannel.Serving.{Answered, response_meta-IsMeta, send_resp-Answered, found_lem}

-- The id that `notify` uses for a service after a notify request with the id `id`.
abbrev pub kept : ℕ → Option ℕ → ℕ
kept id none = id
kept id (some old) = old

pub find_notify-register :
    (id s : ℕ) (w : World)
    → find_notify s (register id s w).requests ≡ some (kept id (find_notify s w.requests))
unfolding register find_notify insert
find_notify-register id s w = elim (Option-cases (find_notify s w.requests)) [
  | inl e ↦ rw (e, ==_refl s)
  | inr (old, e) ↦ rw (e, register) e
]

pub notify_request_lem :
    (env : Env) (memory : Bool) (id s : ℕ) (service : List ℕ) (ss : List ℕ) (w : World)
    → w.services ≡ some ss
    → find_svc env.service service ss ≡ some s
    → is_negative ((env.service s).find_method method_notify) ≡ false
    → process_request env memory id service method_notify [] w ≡ some (register id s w)
unfolding serve_found serve_method
notify_request_lem env memory id s service ss w server found m =
    found_lem env memory id service method_notify [] ss w server (some s) found ∙ rw m

-- `notify` from each of its tests.
notify_lem :
    (env : Env) (s msg id : ℕ) (ss : List ℕ) (w : World)
    → w.conn ≡ some true
    → w.services ≡ some ss
    → find_notify s w.requests ≡ some id
    → notify env (some s) (some msg) w ≡ notify_found env msg w (some id)
unfolding notify
notify_lem env s msg id ss w conn server e =
    rw (is_connected_lem w conn) (rw (ap is_none server) (ap (notify_found env msg w) e))

-- On a connected server channel whose connection takes the packet, a notification for a service
-- with a notify request is sent as exactly one response, with the id of that request, code 0 and the
-- message. (It fits a packet.)
pub notify_sends :
    (env : Env) (s msg id : ℕ) (ss : List ℕ) (body : List ℕ) (w : World) (h : id < 2 ^ 32)
    → w.conn ≡ some true
    → w.services ≡ some ss
    → find_notify s w.requests ≡ some id
    → Accepts env
    → Carried env
        (response_meta id enoerror)
        (response_meta-IsMeta id enoerror h (omega arith))
        (some msg)
        body
    → (w' : World) × (notify env (some s) (some msg) w ≡ some (pos 0, w'))
      × Answered env id enoerror body w w'
unfolding notify_found
notify_sends env s msg id ss body w h conn server e a c =
    let (w', sends, answered) =
      send_resp-Answered env id enoerror h (omega arith) (some msg) body w a c in
    (
      w',
      notify_lem env s msg id ss w conn server e ∙ ap (λ m. m >>= λ v. some (pos 0, v)) sends,
      answered,
    )

pub register_events :
    (id s : ℕ) (w : World)
    → ((register id s w).events ≡ w.events)
      × ((register id s w).conn ≡ w.conn)
      × ((register id s w).services ≡ w.services)
unfolding register
register_events id s w = (ground arith, ground arith, ground arith)

-- On a connected server channel whose connection takes packets, a notify request for a service that
-- has the notify method is itself not answered; a notification for that service is then sent
-- as exactly one response with the message, code 0 and the id of the request, or of an
-- earlier notify request for the service, if there was one. (The message fits a packet, and that id has 32 bits.)
pub notify-process_request :
    (env : Env) (memory : Bool) (id s msg : ℕ) (service : List ℕ) (ss : List ℕ) (body : List ℕ)
    (w : World) (h : kept id (find_notify s w.requests) < 2 ^ 32)
    → w.conn ≡ some true
    → w.services ≡ some ss
    → find_svc env.service service ss ≡ some s
    → is_negative ((env.service s).find_method method_notify) ≡ false
    → Accepts env
    → Carried env
        (response_meta (kept id (find_notify s w.requests)) enoerror)
        (response_meta-IsMeta (kept id (find_notify s w.requests)) enoerror h (omega arith))
        (some msg)
        body
    → (w1 : World) × (w2 : World) × (process_request env memory id service method_notify [] w
        ≡ some w1)
      × (w1.events ≡ w.events)
      × (notify env (some s) (some msg) w1 ≡ some (pos 0, w2))
      × Answered env (kept id (find_notify s w.requests)) enoerror body w1 w2
notify-process_request env memory id s msg service ss body w h conn server found m a c =
    let (events, conns, servs) = register_events id s w in
    let (w2, sends, answered) =
      notify_sends env s msg (kept id (find_notify s w.requests)) ss body (register id s w) h
        (conns ∙ conn) (servs ∙ server) (find_notify-register id s w) a c in
    (
      register id s w,
      w2,
      notify_request_lem env memory id s service ss w server found m,
      events,
      sends,
      answered,
    )

-- A channel that is not connected, has no services, or has no notify request for the service.
pub data Passed (s : ℕ) (w : World) : Type 0 where
  offline : is_connected w ≡ false → Passed s w
  unserved : w.services ≡ none → Passed s w
  unasked : find_notify s w.requests ≡ none → Passed s w

pub notify_passes :
    (env : Env) (s msg : ℕ) (w : World)
    → Passed s w
    → (ret : ℤ) × (notify env (some s) (some msg) w ≡ some (ret, w)) × (is_zero ret ≡ false)
unfolding notify notify_found
notify_passes env s msg w (offline e) = (neg 2, rw e, refl)
notify_passes env s msg w (unserved e) = elim (Bool-cases (is_connected w)) [
  | inl c ↦ (neg 2, rw c (rw (ap is_none e)), refl)
  | inr c ↦ (neg 2, rw c, refl)
]
notify_passes env s msg w (unasked e) = elim (Bool-cases (is_connected w)) [
  | inl c ↦ elim (Bool-cases (is_none w.services)) [
    | inl n ↦ (neg 2, rw c (rw n), refl)
    | inr n ↦ (neg 3, rw c (rw n (ap (notify_found env msg w) e)), refl)
  ]
  | inr c ↦ (neg 2, rw c, refl)
]
