-- ===== src/RpcChannel/Branches.antt =====
-- The two branches of `call_method`, and its clean-up, as single equations.
use sdpf.Prelude.{
  ℕ, ◌≡◌, refl, Option, some, [], ℤ, pos, neg, negsuc, zero, suc, is_zero, if◌then◌else◌,
}
use sdpf.Dispatcher.{MetaRpc}
use sdpf.RpcController.{RpcControllerImp}
use sdpf.RpcController
use sdpf.RpcChannel.{World, Env, set_ctrl, set_ec, set_text, send_packet, remove_request}
use sdpf.RpcChannel.Client.{Waiting, call_async, call_sync, give_up}

-- The two branches, from what `send_packet` does.
pub call_async_lem :
    (env : Env) (m : MetaRpc) (request : Option ℕ) (w1 w2 : World) (ret : ℤ)
    → send_packet env m request w1 ≡ some (ret, w2)
    → call_async env m request w1 ≡ some (if is_zero ret then pos 0 else neg 4, w2)
unfolding call_async
call_async_lem env m request w1 w2 (pos zero) h = rw h
call_async_lem env m request w1 w2 (pos (suc n)) h = rw h
call_async_lem env m request w1 w2 (negsuc n) h = rw h

pub call_sync_refused_lem :
    (env : Env) (waiting : Waiting) (m : MetaRpc) (request : Option ℕ) (p : ℕ) (w1 w2 : World)
    → send_packet env m request (set_ctrl p (RpcController.lock (w1.ctrls p)) w1) ≡ some (neg 3, w2)
    → call_sync env waiting m request p w1
      ≡ some (pos 0, set_ctrl p (RpcController.unlock (w2.ctrls p)) w2)
unfolding call_sync
call_sync_refused_lem env waiting m request p w1 w2 h = rw h

pub call_sync_sent_lem :
    (env : Env) (waiting : Waiting) (m : MetaRpc) (request : Option ℕ) (p : ℕ) (w1 w2 : World)
    → send_packet env m request (set_ctrl p (RpcController.lock (w1.ctrls p)) w1) ≡ some (pos 0, w2)
    → call_sync env waiting m request p w1
      ≡ some (
        pos 0,
        set_ctrl p
            (RpcController.wait ((waiting.meanwhile w2).ctrls p) waiting.timeout).1
            (waiting.meanwhile w2),
      )
unfolding call_sync
call_sync_sent_lem env waiting m request p w1 w2 h = rw h

pub give_up_zero : (id p : ℕ) (w : World) → give_up id p (pos 0, w) ≡ (pos 0, w)
unfolding give_up
give_up_zero id p w = refl

pub give_up_failed :
    (id p : ℕ) (w w' : World) (found : Option ℕ)
    → remove_request id (set_text p [] (set_ec p (pos 0) w)) ≡ (found, w')
    → give_up id p (neg 4, w) ≡ (neg 4, w')
unfolding give_up
give_up_failed id p w w' found h = rw h
