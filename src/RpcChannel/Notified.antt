-- ===== src/RpcChannel/Notified.antt =====
-- `call_method` with the name of the built-in notify method.
use sdpf.Prelude.{
  ℕ, ◌≡◌, refl, ap, ◌∙◌, true, false, Option, none, some, List, neg, pos, is_zero, insert, ◌>>=◌,
  if◌then◌else◌,
}
use sdpf.IoScheduler.{is_none}
use sdpf.RpcChannel.{
  World, Env, method_notify, enotify_mark, set_ec, set_text, set_resp, send_packet, sent, emit,
}
use sdpf.IoBuf.{IoBufImp}
use sdpf.IoBuf.Invariant.{contents}
use sdpf.Dispatcher.Roundtrip.{IsMeta}
use sdpf.Frame.Wire.{wire}
use sdpf.RpcChannel.Pending.{Carried, Accepts, send_packet_accepted}
use sdpf.RpcChannel.Branches.{call_async_lem, give_up_zero}
use sdpf.RpcChannel.Client.{
  Waiting, has_notify, request_meta, call_sync, call_async, give_up, submit, enter, call_named,
  call_method,
}
use sdpf.RpcChannel.Calls.{==_refl, is_connected_lem, next_id}

-- The world when a notify request is looked for in the table.
abbrev pub entered_notify : ℕ → List ℕ → Option ℕ → World → World
entered_notify p service response w =
    set_resp p response (record (set_text p service (set_ec p enotify_mark w)) { id = next_id w })

notify_enters :
    (env : Env) (waiting : Waiting) (service : List ℕ) (request response : Option ℕ) (p cb : ℕ)
    (w : World)
    → w.conn ≡ some true
    → w.services ≡ none
    → (w.ctrls p).callback ≡ some cb
    → call_method env waiting (some service) (some method_notify) request response (some p) w
      ≡ enter env waiting service method_notify request response p
          (set_text p service (set_ec p enotify_mark w))
unfolding call_method call_named
notify_enters env waiting service request response p cb w conn serv e =
    let server : is_none w.services ≡ true = ap is_none serv in
    let asynchronous : is_none (w.ctrls p).callback ≡ false = ap is_none e in
    rw (is_connected_lem w conn) (rw server (rw asynchronous))

enter_repeated :
    (env : Env) (waiting : Waiting) (service method : List ℕ) (request response : Option ℕ) (p : ℕ)
    (w : World)
    → let w1 = set_resp p response (record w { id = next_id w }) in
      is_zero (w1.ctrls p).code ≡ false
      → has_notify w1.ctrls service w1.requests ≡ true
      → enter env waiting service method request response p w ≡ some (neg 3, w1)
unfolding enter
enter_repeated env waiting service method request response p w marked found = rw (marked, found)

-- On a connected client, a second notify request with a callback for a service that has one
-- waiting is refused with -3: the table is unchanged and nothing is sent.
pub call_notify_repeated :
    (env : Env) (waiting : Waiting) (service : List ℕ) (request response : Option ℕ) (p cb : ℕ)
    (w : World)
    → w.conn ≡ some true
    → w.services ≡ none
    → (w.ctrls p).callback ≡ some cb
    → has_notify (entered_notify p service response w).ctrls service w.requests ≡ true
    → (w' : World) × (call_method env waiting
          (some service)
          (some method_notify)
          request
          response
          (some p)
          w
        ≡ some (neg 3, w'))
      × (w'.requests ≡ w.requests)
      × (w'.events ≡ w.events)
call_notify_repeated env waiting service request response p cb w conn serv e found = (
  entered_notify p service response w,
  notify_enters env waiting service request response p cb w conn serv e
      ∙ enter_repeated env waiting service method_notify request response p _ (rw (==_refl p))
          found,
  refl,
  refl,
)

-- The world when a notify request is in the table and nothing has been sent.
abbrev pub subscribed : ℕ → List ℕ → Option ℕ → World → World
subscribed p service response w =
    let w1 = entered_notify p service response w in
    record w1 { requests = insert (next_id w) p w.requests }

module _ (env : Env) (waiting : Waiting) (service : List ℕ) (request response : Option ℕ) (p cb : ℕ)
    (w : World) (e : (w.ctrls p).callback ≡ some cb) where
  pub subscribed-callback : ((subscribed p service response w).ctrls p).callback ≡ some cb
  subscribed-callback = rw (==_refl p) e

  pub subscribed-code : is_zero ((subscribed p service response w).ctrls p).code ≡ false
  subscribed-code = rw (==_refl p) refl

  enter_new :
      has_notify (entered_notify p service response w).ctrls service w.requests ≡ false
      → enter env waiting service method_notify request response p
          (set_text p service (set_ec p enotify_mark w))
        ≡ submit env waiting
            (request_meta (next_id w) service method_notify)
            request
            p
            (entered_notify p service response w)
  unfolding enter
  enter_new alone = rw (alone, ==_refl p)

  submit_new :
      (w2 : World)
      → send_packet env
          (request_meta (next_id w) service method_notify)
          request
          (subscribed p service response w)
        ≡ some (pos 0, w2)
      → submit env waiting
          (request_meta (next_id w) service method_notify)
          request
          p
          (entered_notify p service response w)
        ≡ some (pos 0, w2)
  unfolding submit request_meta
  submit_new w2 sends =
      let m = request_meta (next_id w) service method_notify in
      let w1 = subscribed p service response w in
      ap
        (λ o.
          (if is_none o then call_sync env waiting m request p w1 else call_async env m request w1)
          >>= λ q. some (give_up (next_id w) p q))
        subscribed-callback
      ∙ ap (λ o. o >>= λ q. some (give_up (next_id w) p q))
          (call_async_lem env m request w1 w2 (pos 0) sends)
      ∙ ap some (give_up_zero (next_id w) p w2)

  -- On a connected client whose connection takes the packet, a first notify request for a service,
  -- with a callback, returns 0. It then waits under the next id, marked with a code that is not 0, and
  -- one packet is sent, with that id, the service, and the body. (The message fits a packet.)
  pub call_notify_sent :
      (body : List ℕ)
      → w.conn ≡ some true
      → w.services ≡ none
      → has_notify (entered_notify p service response w).ctrls service w.requests ≡ false
      → Accepts env
      → (im : IsMeta (request_meta (next_id w) service method_notify))
      → Carried env (request_meta (next_id w) service method_notify) im request body
      → (b : IoBufImp) × (call_method env waiting
            (some service)
            (some method_notify)
            request
            response
            (some p)
            w
          ≡ some (pos 0, emit (sent b) (subscribed p service response w)))
        × (contents b ≡ wire env.mp (request_meta (next_id w) service method_notify) body)
  call_notify_sent body conn serv alone a im c =
      let (b, sends, held) =
        send_packet_accepted env (request_meta (next_id w) service method_notify) im request body
          (subscribed p service response w) c a in
      (
        b,
        notify_enters env waiting service request response p cb w conn serv e
            ∙ enter_new alone
            ∙ submit_new (emit (sent b) (subscribed p service response w)) sends,
        held,
      )
