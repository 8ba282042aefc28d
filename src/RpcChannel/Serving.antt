-- ===== src/RpcChannel/Serving.antt =====
-- What a server answers.
use sdpf.Prelude.{
  ℕ, ◌^◌, ◌<◌, ◌≡◌, refl, sym, ap, ◌∙◌, ◌≢◌, Bool, true, false, Option, none, some, List, [], ◌∷◌,
  ◌++◌, length, arith, ℤ, is_zero, is_negative, ◌>>=◌, if◌then◌else◌, ==_iff, inr, length-append,
}
use sdpf.IoBuf.{IoBufImp}
use sdpf.IoBuf.Invariant.{contents}
use sdpf.Dispatcher.{blank}
use sdpf.Dispatcher.Roundtrip.{IsMeta, IsInt32}
use sdpf.Frame.{same_bytes}
use sdpf.Frame.Wire.{wire}
use sdpf.RpcController
use sdpf.RpcChannel.{
  World, Env, Service, sent, enoerror, enoservice, enomethod, erequest, emethodcall, method_notify,
  emit, response_meta, send_resp,
}
use sdpf.RpcChannel.Server.{
  starts_with, find_svc, serve_found, serve_method, process_request, serve, is_garbled, done,
}
use sdpf.RpcChannel.Pending.{Carried, Accepts, send_packet_accepted}

pub response_meta-IsMeta :
    (id : ℕ) (code : ℤ) → id < 2 ^ 32 → IsInt32 code → IsMeta (response_meta id code)
unfolding response_meta blank
response_meta-IsMeta id code h k = inr (record {
  kind = refl;
  id = h;
  code = k;
  text = record { plain = tt; short = omega arith };
  no_service = refl;
  no_method = refl;
})

-- The answer to a request: the world in which exactly one packet more has been sent, which carries
-- the request's id, the code and the body.
pub record Answered (env : Env) (id : ℕ) (code : ℤ) (body : List ℕ) (w w' : World) : Type 0 where
  pub packet : IoBufImp
  pub world : w' ≡ emit (sent packet) w
  pub bytes : contents packet ≡ wire env.mp (response_meta id code) body

module _ (env : Env) (id : ℕ) (code : ℤ) (h : id < 2 ^ 32) (k : IsInt32 code) where
  pub send_resp-Answered :
      (response : Option ℕ) (body : List ℕ) (w : World)
      → Accepts env
      → Carried env (response_meta id code) (response_meta-IsMeta id code h k) response body
      → (w' : World) × (send_resp env id code response w ≡ some w') × Answered env id code body w w'
  unfolding send_resp
  send_resp-Answered response body w a c =
      let (b, sends, held) =
        send_packet_accepted env (response_meta id code) (response_meta-IsMeta id code h k) response
          body w c a in
      (
        emit (sent b) w,
        ap (λ m. m >>= λ r. some r.1) sends,
        record { packet = b; world = refl; bytes = held },
      )

-- Why a server turns a request down, and with which code.
pub data Refused (env : Env) (ss : List ℕ) (service method body : List ℕ) : ℤ → Type 0 where
  no_service :
      find_svc env.service service ss ≡ none → Refused env ss service method body enoservice
  no_method :
      (s : ℕ)
      → find_svc env.service service ss ≡ some s
      → is_negative ((env.service s).find_method method) ≡ true
      → Refused env ss service method body enomethod
  bad_request :
      (s : ℕ)
      → find_svc env.service service ss ≡ some s
      → is_negative ((env.service s).find_method method) ≡ false
      → same_bytes method method_notify ≡ false
      → is_garbled env ((env.service s).new_request ((env.service s).find_method method)) body
        ≡ true
      → Refused env ss service method body erequest

pub Refused-IsInt32 :
    {env : Env} {ss service method body : List ℕ} {code : ℤ}
    → Refused env ss service method body code
    → IsInt32 code
Refused-IsInt32 (no_service e) = omega arith
Refused-IsInt32 (no_method s e m) = omega arith
Refused-IsInt32 (bad_request s e m n g) = omega arith

module _ (env : Env) (memory : Bool) (id : ℕ) (service method body : List ℕ) (ss : List ℕ)
    (w : World) (server : w.services ≡ some ss) where
  pub found_lem :
      (o : Option ℕ)
      → find_svc env.service service ss ≡ o
      → process_request env memory id service method body w
        ≡ serve_found env memory id method body w o
  unfolding process_request
  found_lem o e =
      ap
        (λ x. elim x as (λ _. Option World) [
          | none ↦ none
          | some xs ↦ serve_found env memory id method body w (find_svc env.service service xs)
        ])
        server
      ∙ ap (serve_found env memory id method body w) e

  refused_lem :
      {code : ℤ}
      → Refused env ss service method body code
      → process_request env memory id service method body w ≡ send_resp env id code none w
  unfolding serve_found serve_method serve
  refused_lem (no_service e) = found_lem none e
  refused_lem (no_method s e m) = found_lem (some s) e ∙ rw m
  refused_lem (bad_request s e m n g) = found_lem (some s) e ∙ rw m (rw n (rw g))

  -- A server whose connection takes the packet answers a request for an unknown service or method,
  -- or with a body that does not parse, by exactly one response, which carries the request's id,
  -- the code for the reason and no body; nothing else changes.
  pub process_request-Refused :
      (code : ℤ) (h : id < 2 ^ 32) (r : Refused env ss service method body code)
      → Accepts env
      → Carried env
          (response_meta id code)
          (response_meta-IsMeta id code h (Refused-IsInt32 r))
          none
          []
      → (w' : World) × (process_request env memory id service method body w ≡ some w')
        × Answered env id code [] w w'
  process_request-Refused code h r a c =
      let (w', e, answered) = send_resp-Answered env id code h (Refused-IsInt32 r) none [] w a c in
      (w', refused_lem r ∙ e, answered)

-- What a service reports through `done`, where the serialized result fits a packet and the
-- connection takes it, is answered by exactly one response with the id that its controller was
-- given: with code 0, or, if the service has set an error, with the code for a failed method, and
-- in both cases with the result.
pub done_answers :
    (env : Env) (id p : ℕ) (w : World) (body : List ℕ) (code : ℤ) (h : id < 2 ^ 32)
    (k : IsInt32 code)
    → code ≡ (if is_zero (w.ctrls p).code then enoerror else emethodcall)
    → Accepts env
    → Carried env
        (response_meta id code)
        (response_meta-IsMeta id code h k)
        (w.ctrls p).response
        body
    → (w' : World) × (done env id p w ≡ some w') × Answered env id code body w w'
unfolding done
done_answers env id p w body code h k e a c =
    let (w', sends, answered) =
      send_resp-Answered env id code h k (w.ctrls p).response body w a c in
    (w', ap (λ x. send_resp env id x (w.ctrls p).response w) (chosen ∙ sym e) ∙ sends, answered)
  where
    chosen :
        (if RpcController.failed (w.ctrls p) then emethodcall else enoerror)
        ≡ (if is_zero (w.ctrls p).code then enoerror else emethodcall)
    chosen = ground arith

-- No service of the list has a name that begins with the one asked for.
abbrev pub NonePrefix : (ℕ → Service) → List ℕ → List ℕ → Type 0
NonePrefix service name [] = Unit {0}
NonePrefix service name (f ∷ fs) =
    (starts_with name (service f).name ≡ false) × NonePrefix service name fs

-- A service is answered for by the first in the list whose name begins with the name asked for.
pub find_svc_prefix :
    (service : ℕ → Service) (name : List ℕ) (front : List ℕ) (s : ℕ) (back : List ℕ)
    → NonePrefix service name front
    → starts_with name (service s).name ≡ true
    → find_svc service name (front ++ (s ∷ back)) ≡ some s
unfolding find_svc
find_svc_prefix service name [] s back h e = rw e
find_svc_prefix service name (f ∷ front) s back h e =
    rw h.0 (find_svc_prefix service name front s back h.1 e)

starts_with_proper :
    (name : List ℕ) (x : ℕ) (rest : List ℕ) → starts_with name (name ++ (x ∷ rest)) ≡ true
unfolding starts_with
starts_with_proper [] x rest = refl
starts_with_proper (n ∷ name) x rest = rw ((==_iff n n).1 refl) (starts_with_proper name x rest)

longer_ne : (name : List ℕ) (x : ℕ) (rest : List ℕ) → name ++ (x ∷ rest) ≢ name
longer_ne name x rest e = omega (arith, ap length e, length-append name (x ∷ rest))

-- A request for a service that does not exist is given to another one, wherever the name asked for
-- is cut off before the end of that one's name and no earlier service has such a name.
pub find_svc_wrong :
    (service : ℕ → Service) (name : List ℕ) (x : ℕ) (rest front : List ℕ) (s : ℕ) (back : List ℕ)
    → NonePrefix service name front
    → (service s).name ≡ name ++ (x ∷ rest)
    → (find_svc service name (front ++ (s ∷ back)) ≡ some s) × ((service s).name ≢ name)
find_svc_wrong service name x rest front s back h e = (
  find_svc_prefix service name front s back h
      (ap (starts_with name) e ∙ starts_with_proper name x rest),
  λ same. longer_ne name x rest (sym e ∙ same),
)
