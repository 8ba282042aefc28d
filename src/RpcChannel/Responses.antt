-- ===== src/RpcChannel/Responses.antt =====
-- `process_response`: a response completes the request that it answers, and that one only.
use sdpf.Prelude.{
  ℕ, ◌≡◌, refl, sym, ap, ◌∙◌, true, false, not, none, some, List, ℤ, is_zero, lookup, erase,
  lookup-erase, if◌then◌else◌, ==_iff,
}
use sdpf.RpcChannel.{World, Env, woken, enotify_mark, emit, set_ec, finish}
use sdpf.RpcChannel.Client.{response_code, complete, settle, remark, process_response}
use sdpf.RpcChannel.Pending.{remove_missing, remove_ordinary, remove_notify, finish_woken, after_ec}

-- A response whose id no pending request has is dropped: nothing changes.
pub process_response_unknown :
    (env : Env) (id : ℕ) (code : ℤ) (body : List ℕ) (w : World)
    → lookup id w.requests ≡ none
    → process_response env id code body w ≡ w
unfolding process_response settle
process_response_unknown env id code body w e = ap (settle env code body) (remove_missing id w e)

module _ (env : Env) (id p : ℕ) (w : World) (waits : lookup id w.requests ≡ some p) where
  -- The world in which an ordinary request has been taken out and given its code.
  abbrev pub answered : ℤ → List ℕ → World
  answered code body =
      set_ec p (response_code env (w.ctrls p).response code body)
        (record w { requests = erase id w.requests })

  -- The response to a waiting request whose controller has the code 0 takes exactly that request
  -- out of the table, stores the code in its controller, and then completes it once: by its
  -- callback, or by waking its thread.
  pub process_response_ordinary :
      (code : ℤ) (body : List ℕ)
      → is_zero (w.ctrls p).code ≡ true
      → process_response env id code body w ≡ finish env p (answered code body)
  unfolding process_response settle complete remark
  process_response_ordinary code body z =
      ap (settle env code body) (remove_ordinary id p w waits z)
      ∙ ap (λ b. remark b p (finish env p (answered code body))) (ap not z)

  -- For an ordinary request without a callback, a second response with the same id changes
  -- nothing, whatever its code and its body.
  pub process_response_once :
      (code code' : ℤ) (body body' : List ℕ)
      → is_zero (w.ctrls p).code ≡ true
      → (w.ctrls p).callback ≡ none
      → process_response env id code' body' (process_response env id code body w)
        ≡ process_response env id code body w
  process_response_once code code' body body' z e =
      ap (process_response env id code' body') first
      ∙ process_response_unknown env id code' body' (emit (woken p) (answered code body)) gone
      ∙ sym first
    where
      first : process_response env id code body w ≡ emit (woken p) (answered code body)
      first =
          process_response_ordinary code body z
          ∙ finish_woken env p (answered code body) (after_ec p _ w e)

      gone : lookup id (erase id w.requests) ≡ none
      gone =
          lookup-erase id id w.requests
          ∙ ap (λ b. if b then none else lookup id w.requests) ((==_iff id id).1 refl)

  -- The response to a waiting request whose controller has another code than 0, a notify request,
  -- leaves the table as it is, and when its callback has run the controller is marked again, ready
  -- for the next notification.
  pub process_response_notify :
      (code : ℤ) (body : List ℕ)
      → is_zero (w.ctrls p).code ≡ false
      → process_response env id code body w
        ≡ set_ec p enotify_mark
            (finish env p (set_ec p (response_code env (w.ctrls p).response code body) w))
  unfolding process_response settle complete remark
  process_response_notify code body z =
      ap (settle env code body) (remove_notify id p w waits z)
      ∙ ap
          (λ b.
            remark b p
              (finish env p (set_ec p (response_code env (w.ctrls p).response code body) w)))
          (ap not z)
