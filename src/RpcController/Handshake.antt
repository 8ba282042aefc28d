-- ===== src/RpcController/Handshake.antt =====
-- A thread that waits for the answer to its call, and the loop that brings it:
-- `lock`, `wait` and `notify` of src/RpcController.cpp as `call_method` and
-- `process_response` of src/RpcChannel.cpp call them.
--
-- Between any two steps of one thread the other may take its own. The condition variable is what the
-- C++ standard says: a wait releases the mutex and begins to wait in one step, returns with
-- the mutex taken after `notify_one`, at the timeout, or for no reason.
use sdpf.Prelude.{◌≡◌, Bool, true, false, ℤ, pos}
use sdpf.RpcController.{RpcControllerImp, lock, unlock, wait}

-- Where the caller is in the branch of `call_method` without a callback.
pub data Caller : Type 0 where
  outside holding sent waiting woken : Caller
  returned : ℤ → Caller

-- Where the loop is: the packet has not been sent; the answer is there; inside the lock of `notify`;
-- before `notify_one`; behind it.
pub data Loop : Type 0 where
  idle answering inside leaving finished : Loop

pub record Shared : Type 0 where
  pub caller : Caller
  pub loop : Loop
  pub ctrl : RpcControllerImp

-- `notify_one`
abbrev pub wake : Caller → Caller
wake waiting = woken
wake outside = outside
wake holding = holding
wake sent = sent
wake woken = woken
wake (returned r) = returned r

abbrev pub return : Bool → Shared → Shared
return timeout s = record s {
  caller = returned (wait s.ctrl timeout).0;
  ctrl = (wait s.ctrl timeout).1;
}

pub data Step (s : Shared) : Shared → Type 0 where
  -- `ctrl->lock()`
  take :
      {t : Shared}
      → s.caller ≡ outside
      → s.ctrl.locked ≡ false
      → t ≡ record s { caller = holding; ctrl = lock s.ctrl }
      → Step s t
  -- `send_packet`; the loop may have the answer from here on
  send :
      {t : Shared}
      → s.caller ≡ holding
      → t ≡ record s { caller = sent; loop = answering }
      → Step s t
  -- `send_packet` fails, and `ctrl->unlock()`
  refuse :
      {t : Shared}
      → s.caller ≡ holding
      → t ≡ record s { caller = returned (pos 0); ctrl = unlock s.ctrl }
      → Step s t
  -- `cond_.wait_for` begins
  sleep :
      {t : Shared}
      → s.caller ≡ sent
      → t ≡ record s { caller = waiting; ctrl = unlock s.ctrl }
      → Step s t
  -- `unique_lock<mutex> lk(mutex_)` of `notify`
  enter :
      {t : Shared}
      → s.loop ≡ answering
      → s.ctrl.locked ≡ false
      → t ≡ record s { loop = inside; ctrl = lock s.ctrl }
      → Step s t
  -- `lk.unlock()`
  leave :
      {t : Shared}
      → s.loop ≡ inside
      → t ≡ record s { loop = leaving; ctrl = unlock s.ctrl }
      → Step s t
  -- `cond_.notify_one()`
  signal :
      {t : Shared}
      → s.loop ≡ leaving
      → t ≡ record s { loop = finished; caller = wake s.caller }
      → Step s t
  -- `cond_.wait_for` returns: after `notify_one`, at the timeout, for no reason
  resume : {t : Shared} → s.caller ≡ woken → s.ctrl.locked ≡ false → t ≡ return false s → Step s t
  expire : {t : Shared} → s.caller ≡ waiting → s.ctrl.locked ≡ false → t ≡ return true s → Step s t
  stray : {t : Shared} → s.caller ≡ waiting → s.ctrl.locked ≡ false → t ≡ return false s → Step s t

pub data Reach (s : Shared) : Shared → Type 0 where
  here : Reach s s
  next : {t u : Shared} → Reach s t → Step t u → Reach s u
