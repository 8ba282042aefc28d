-- ===== src/RpcChannel/Calls.antt =====
-- `call_method`: what the caller is told and what becomes of the request.
use sdpf.Prelude.{
  ℕ, ◌+◌, ◌%◌, ◌^◌, ◌<◌, ◌≡◌, refl, ap, ◌∙◌, true, false, Option, none, some, List, [], ◌∷◌, ◌++◌,
  ◌==◌, arith, ℤ, pos, neg, is_zero, ◌>>=◌, lookup, insert, erase, lookup-insert, erase-insert,
  if◌then◌else◌, ==_iff,
}
use sdpf.IoBuf.{IoBufImp}
use sdpf.IoBuf.Invariant.{contents}
use sdpf.IoScheduler.{is_none}
use sdpf.Dispatcher.{MetaRpc}
use sdpf.Dispatcher.Roundtrip.{IsCString, IsMeta}
use sdpf.Frame.{same_bytes}
use sdpf.Frame.Wire.{wire}
use sdpf.RpcChannel.{
  World, Env, sent, method_notify, emit, set_ec, set_text, set_resp, is_connected,
}
use sdpf.RpcChannel.Client.{
  Waiting, request_meta, call_async, call_sync, give_up, submit, enter, call_named, call_method,
}
use sdpf.RpcChannel.Pending.{
  Carried, Accepts, Refuses, send_packet_accepted, send_packet_refused, request_meta-IsMeta,
  remove_ordinary,
}
use sdpf.RpcChannel.Branches.{call_async_lem, give_up_zero, give_up_failed}

-- An ordinary call on a connected client channel.
pub record IsOrdinary (w : World) (service method : List ℕ) (p : ℕ) : Type 0 where
  pub connected : w.conn ≡ some true
  pub client : w.services ≡ none
  pub ordinary : same_bytes method method_notify ≡ false
  pub service_text : IsCString service
  pub method_text : IsCString method

-- The number that the next request gets.
abbrev pub next_id : World → ℕ
next_id w = (w.id + 1) % 2 ^ 32

pub next_id-lt : (w : World) → next_id w < 2 ^ 32
next_id-lt w = omega arith

-- The world when an ordinary request is in the table and nothing has been sent.
abbrev pub entered : ℕ → Option ℕ → World → World
entered p response w =
    let w1 = set_resp p response (record (set_ec p (pos 0) w) { id = next_id w }) in
    record w1 { requests = insert (next_id w) p w.requests }

pub ==_refl : (n : ℕ) → (n == n) ≡ true
==_refl n = (==_iff n n).1 refl

pub is_connected_lem : (w : World) → w.conn ≡ some true → is_connected w ≡ true
is_connected_lem w e = rw e

module _ (env : Env) (waiting : Waiting) (service method : List ℕ) (request response : Option ℕ)
    (p : ℕ) (w : World) (o : IsOrdinary w service method p) where
  abbrev pub meta : MetaRpc
  meta = request_meta (next_id w) service method

  call_enters :
      call_method env waiting (some service) (some method) request response (some p) w
      ≡ enter env waiting service method request response p (set_ec p (pos 0) w)
  unfolding call_method call_named
  call_enters = rw (is_connected_lem w o.connected, o.client, o.ordinary)

  -- The controller's code is 0, so that no search for a notify request is made.
  enter_submits :
      enter env waiting service method request response p (set_ec p (pos 0) w)
      ≡ submit env waiting meta request p
          (set_resp p response (record (set_ec p (pos 0) w) { id = next_id w }))
  unfolding enter
  enter_submits = rw (==_refl p)

  pub meta-IsMeta : IsMeta meta
  meta-IsMeta =
      request_meta-IsMeta (next_id w) service method (next_id-lt w) o.service_text o.method_text

  -- An ordinary call comes to one of the two branches with the request entered.
  call_ordinary :
      call_method env waiting (some service) (some method) request response (some p) w ≡ (
        (if is_none (w.ctrls p).callback
          then call_sync env waiting meta request p (entered p response w)
          else call_async env meta request (entered p response w))
        >>= λ r. some (give_up (next_id w) p r))
  unfolding submit request_meta
  call_ordinary = call_enters ∙ enter_submits ∙ rw (==_refl p)

  by_async :
      {cb : ℕ} {r : ℤ × World}
      → (w.ctrls p).callback ≡ some cb
      → call_async env meta request (entered p response w) ≡ some r
      → call_method env waiting (some service) (some method) request response (some p) w
        ≡ some (give_up (next_id w) p r)
  by_async e h =
      call_ordinary
      ∙ ap
          (λ o.
            (if is_none o
              then call_sync env waiting meta request p (entered p response w)
              else call_async env meta request (entered p response w))
            >>= λ q. some (give_up (next_id w) p q))
          e
      ∙ ap (λ m. m >>= λ q. some (give_up (next_id w) p q)) h

  pub by_sync :
      {r : ℤ × World}
      → (w.ctrls p).callback ≡ none
      → call_sync env waiting meta request p (entered p response w) ≡ some r
      → call_method env waiting (some service) (some method) request response (some p) w
        ≡ some (give_up (next_id w) p r)
  by_sync e h =
      call_ordinary
      ∙ ap
          (λ o.
            (if is_none o
              then call_sync env waiting meta request p (entered p response w)
              else call_async env meta request (entered p response w))
            >>= λ q. some (give_up (next_id w) p q))
          e
      ∙ ap (λ m. m >>= λ q. some (give_up (next_id w) p q)) h

  -- The controller in the entered world.
  pub entered_code : is_zero ((entered p response w).ctrls p).code ≡ true
  entered_code = rw (==_refl p)

  pub lookup-entered : lookup (next_id w) (entered p response w).requests ≡ some p
  lookup-entered = rw (lookup-insert, ==_refl (next_id w))

  pub call_async_world :
      {cb : ℕ} (body : List ℕ)
      → (w.ctrls p).callback ≡ some cb
      → Accepts env
      → Carried env meta meta-IsMeta request body
      → (b : IoBufImp) × (call_method env waiting
            (some service)
            (some method)
            request
            response
            (some p)
            w
          ≡ some (pos 0, emit (sent b) (entered p response w)))
        × (contents b ≡ wire env.mp meta body)
  call_async_world body e a c =
      let (b, sends, held) =
        send_packet_accepted env meta meta-IsMeta request body (entered p response w) c a in
      (
        b,
        by_async e (call_async_lem env meta request _ _ (pos 0) sends)
            ∙ ap some (give_up_zero (next_id w) p _),
        held,
      )

  -- An ordinary call with a callback, on a connected client whose connection takes the packet and
  -- whose serialized request fits one, returns 0. The request then waits under the next id, and
  -- the one packet sent carries that id, the names and the body.
  pub call_async_sent :
      {cb : ℕ} (body : List ℕ)
      → (w.ctrls p).callback ≡ some cb
      → Accepts env
      → Carried env meta meta-IsMeta request body
      → (b : IoBufImp) × (w' : World) × (call_method env waiting
            (some service)
            (some method)
            request
            response
            (some p)
            w
          ≡ some (pos 0, w'))
        × (w'.requests ≡ insert (next_id w) p w.requests)
        × (w'.id ≡ next_id w)
        × (w'.events ≡ w.events ++ (sent b ∷ []))
        × (contents b ≡ wire env.mp meta body)
  call_async_sent body e a c =
      let (b, call, held) = call_async_world body e a c in
      (b, emit (sent b) (entered p response w), call, refl, refl, refl, held)

  -- An ordinary call with a callback, under an id that is not in use, on a connected client whose
  -- connection refuses the packet, returns -4, and takes the request out of the table again;
  -- nothing has been sent. (The serialized request fits a packet.)
  pub call_async_refused :
      {cb : ℕ} (body : List ℕ)
      → (w.ctrls p).callback ≡ some cb
      → lookup (next_id w) w.requests ≡ none
      → Refuses env
      → Carried env meta meta-IsMeta request body
      → (w' : World) × (call_method env waiting
            (some service)
            (some method)
            request
            response
            (some p)
            w
          ≡ some (neg 4, w'))
        × (w'.requests ≡ w.requests)
        × (w'.events ≡ w.events)
  call_async_refused body e fresh a c =
      let sends =
        send_packet_refused env meta meta-IsMeta request body (entered p response w) c a in
      let removed =
        remove_ordinary (next_id w) p (set_text p [] (set_ec p (pos 0) (entered p response w)))
          lookup-entered (rw (==_refl p)) in
      (
        removed_world,
        by_async e (call_async_lem env meta request _ _ (neg 3) sends)
            ∙ ap some (
                give_up_failed (next_id w) p (entered p response w) removed_world (some p) removed),
        erase-insert (next_id w) p w.requests fresh,
        refl,
      )
    where
      removed_world : World
      removed_world = record (set_text p [] (set_ec p (pos 0) (entered p response w))) {
        requests = erase (next_id w) (insert (next_id w) p w.requests);
      }
