-- ===== src/RpcChannel/Keeping.antt =====
-- What the methods of a client do to the ids that are not in use: src/RpcChannel.cpp.
use sdpf.Prelude.{
  ℕ, ◌+◌, ◌^◌, ◌≤◌, ◌<◌, ◌≡◌, refl, Bool, true, false, Option, none, some, List, [], ◌∷◌, arith, ℤ,
  pos, neg, lookup, insert, lookup-insert, if◌then◌else◌, is_zero, not, ◌&&◌,
}
use sdpf.IoScheduler.{is_none}
use sdpf.Frame.{same_bytes}
use sdpf.Dispatcher.{MetaRpc}
use sdpf.RpcChannel.{
  World, Env, set_ec, set_text, set_resp, is_connected, emit, completed, woken, finish,
  remove_request, method_notify, enetwork, enotify_mark,
}
use sdpf.RpcChannel.Client.{
  Waiting, has_notify, call_async, call_sync, give_up, submit, enter, call_named, call_method,
  request_meta, settle, complete, remark, response_code, process_response, fail_all, clear_all,
  on_close,
}
use sdpf.RpcChannel.Calls.{next_id}
use sdpf.RpcChannel.Freshness.{
  IsFresh, IsFresh-mono, Ok, gives, ok, if_Ok, then_Ok, same-IsFresh, IsSteady,
  remove_request-IsFresh, call_async-Ok, call_sync-Ok, give_up-IsFresh,
}

module _ (env : Env) (waiting : Waiting) (steady : IsSteady waiting.meanwhile) {c : ℕ} where
  submit-Ok :
      (m : MetaRpc) (request : Option ℕ) (p : ℕ) (w : World)
      → m.relation_id ≤ w.id
      → IsFresh c w
      → Ok c (submit env waiting m request p w)
  unfolding submit
  submit-Ok m request p w small f =
      let w1 = record w { requests = insert m.relation_id p w.requests } in
      let f1 : IsFresh c w1 = record {
        bounded = f.bounded;
        above = λ k h. ground (arith, lookup-insert m.relation_id k p w.requests, f.above k h);
      } in
      then_Ok
        (if is_none (w1.ctrls p).callback
          then call_sync env waiting m request p w1
          else call_async env m request w1)
        (if_Ok (is_none (w1.ctrls p).callback) (call_sync-Ok env waiting steady m request p w1 f1)
          (call_async-Ok env waiting m request w1 f1))
        (λ r g.
          gives (give_up m.relation_id p r) refl (give_up-IsFresh env waiting m.relation_id p r g))

module _ (env : Env) (waiting : Waiting) (steady : IsSteady waiting.meanwhile) {c : ℕ} where
  enter-Ok :
      (service method : List ℕ) (request response : Option ℕ) (p : ℕ) (w : World)
      → w.id + 1 < 2 ^ 32
      → IsFresh c w
      → Ok (c + 1) (enter env waiting service method request response p w)
  unfolding enter request_meta
  enter-Ok service method request response p w room f =
      let id = next_id w in
      let w1 = set_resp p response (record w { id = id }) in
      let up : id ≡ w.id + 1 = omega arith in
      let f1 : IsFresh (c + 1) w1 = record {
        bounded = omega (arith, up, f.bounded);
        above = λ k h. f.above k (omega (arith, h, up));
      } in
      let m = request_meta id service method in
      let test = not (is_zero (w1.ctrls p).code) && has_notify w1.ctrls service w1.requests in
      if_Ok test {x = some (neg 3, w1)} (ok f1)
        (submit-Ok env waiting steady m request p w1 (omega arith) f1)

module _ (env : Env) (waiting : Waiting) (steady : IsSteady waiting.meanwhile) {c : ℕ} where
  call_named-Ok :
      (service method : List ℕ) (request response : Option ℕ) (p : ℕ) (w : World)
      → w.id + 1 < 2 ^ 32
      → IsFresh c w
      → Ok (c + 1) (call_named env waiting service method request response p w)
  unfolding call_named
  call_named-Ok service method request response p w room f =
      let g = IsFresh-mono c (c + 1) w (omega arith) f in
      let marked = set_text p service (set_ec p enotify_mark w) in
      let reset = set_ec p (pos 0) w in
      if_Ok (not (is_connected w)) (ok g) (
        if_Ok (not (is_none w.services)) (ok g) (
          if_Ok (same_bytes method method_notify)
            (if_Ok (is_none (w.ctrls p).callback) (ok g) (
              enter-Ok env waiting steady service method request response p marked room
                (same-IsFresh w marked refl refl f)))
            (enter-Ok env waiting steady service method request response p reset room
              (same-IsFresh w reset refl refl f))))

  pub call_method-Ok :
      (service method : Option (List ℕ)) (request response p : Option ℕ) (w : World)
      → w.id + 1 < 2 ^ 32
      → IsFresh c w
      → Ok (c + 1) (call_method env waiting service method request response p w)
  unfolding call_method
  call_method-Ok (some service) (some method) request response (some p) w room f =
      call_named-Ok service method request response p w room f
  call_method-Ok none method request response p w room f =
      ok (IsFresh-mono c (c + 1) w (omega arith) f)
  call_method-Ok (some service) none request response p w room f =
      ok (IsFresh-mono c (c + 1) w (omega arith) f)
  call_method-Ok (some service) (some method) request response none w room f =
      ok (IsFresh-mono c (c + 1) w (omega arith) f)

module _ (env : Env) (users : (cb : ℕ) → IsSteady (env.user cb)) {c : ℕ} where
  finish-IsFresh : (p : ℕ) (w : World) → IsFresh c w → IsFresh c (finish env p w)
  unfolding finish
  finish-IsFresh p w f =
      elim (w.ctrls p).callback
        as (λ o. IsFresh c (elim o as (λ _. World) [
          | none ↦ emit (woken p) w
          | some cb ↦ env.user cb (emit (completed p) w)
        ])) [
          | none ↦ same-IsFresh w (emit (woken p) w) refl refl f
          | some cb ↦
              users cb c (emit (completed p) w) (same-IsFresh w (emit (completed p) w) refl refl f)
        ]

  remark-IsFresh : (b : Bool) (p : ℕ) (w : World) → IsFresh c w → IsFresh c (remark b p w)
  unfolding remark
  remark-IsFresh true p w f = same-IsFresh w (set_ec p enotify_mark w) refl refl f
  remark-IsFresh false p w f = f

  settle-IsFresh :
      (code : ℤ) (body : List ℕ) (r : Option ℕ × World)
      → IsFresh c r.1
      → IsFresh c (settle env code body r)
  unfolding settle complete
  settle-IsFresh code body (none, w) f = f
  settle-IsFresh code body (some p, w) f =
      let w1 = set_ec p (response_code env (w.ctrls p).response code body) w in
      remark-IsFresh (not (is_zero (w.ctrls p).code)) p (finish env p w1)
        (finish-IsFresh p w1 (same-IsFresh w w1 refl refl f))

  pub process_response-IsFresh :
      (id : ℕ) (code : ℤ) (body : List ℕ) (w : World)
      → IsFresh c w
      → IsFresh c (process_response env id code body w)
  unfolding process_response
  process_response-IsFresh id code body w f =
      settle-IsFresh code body (remove_request id w) (remove_request-IsFresh c id w f)

  fail_all-IsFresh : (rs : List (ℕ × ℕ)) (w : World) → IsFresh c w → IsFresh c (fail_all env rs w)
  unfolding fail_all
  fail_all-IsFresh [] w f = f
  fail_all-IsFresh ((id, p) ∷ rs) w f =
      fail_all-IsFresh rs (finish env p (set_ec p enetwork w))
        (finish-IsFresh p (set_ec p enetwork w) (same-IsFresh w (set_ec p enetwork w) refl refl f))

  clear_all-IsFresh : (w : World) → IsFresh c w → IsFresh c (clear_all w)
  unfolding clear_all lookup
  clear_all-IsFresh w f = record {
    bounded = ground (arith, f.bounded);
    above = λ k h. ground arith;
  }

  pub on_close-IsFresh : (w : World) → IsFresh c w → IsFresh c (on_close env w)
  unfolding on_close
  on_close-IsFresh w f =
      clear_all-IsFresh _
        (elim (is_none w.services)
          as (λ b. IsFresh c (if b then fail_all env w.requests w else w)) [
            | true ↦ fail_all-IsFresh w.requests w f
            | false ↦ f
          ])
