-- ===== src/RpcChannel/Sync.antt =====
-- `call_method` without a callback: what the caller is told, and what stays in the table.
use sdpf.Prelude.{ℕ, ◌≡◌, refl, ap, ◌∙◌, Option, none, some, List, pos, lookup}
use sdpf.IoBuf.{IoBufImp}
use sdpf.IoBuf.Invariant.{contents}
use sdpf.Dispatcher.{MetaRpc}
use sdpf.Dispatcher.Roundtrip.{IsMeta}
use sdpf.Frame.Wire.{wire}
use sdpf.RpcController.{RpcControllerImp}
use sdpf.RpcController
use sdpf.RpcChannel.{World, Env, sent, emit, set_ctrl}
use sdpf.RpcChannel.Client.{Waiting, call_method}
use sdpf.RpcChannel.Pending.{Carried, Accepts, Refuses, send_packet_accepted, send_packet_refused}
use sdpf.RpcChannel.Branches.{call_sync_refused_lem, call_sync_sent_lem, give_up_zero}
use sdpf.RpcChannel.Calls.{IsOrdinary, meta, meta-IsMeta, next_id, entered, by_sync, lookup-entered}

module _ (env : Env) (waiting : Waiting) (service method : List ℕ) (request response : Option ℕ)
    (p : ℕ) (w : World) (o : IsOrdinary w service method p) where
  abbrev pub request_of : MetaRpc
  request_of = meta env waiting service method request response p w o

  pub request_of-IsMeta : IsMeta request_of
  request_of-IsMeta = meta-IsMeta env waiting service method request response p w o

  -- An ordinary call without a callback returns 0 also when the connection refuses its packet:
  -- `ret = -4` is an assignment to the inner variable. Nothing has been sent, nobody waits, and
  -- the request stays in the table, pointing to the caller's controller.
  pub call_sync_refused :
      (body : List ℕ)
      → (w.ctrls p).callback ≡ none
      → Refuses env
      → Carried env request_of request_of-IsMeta request body
      → (w' : World) × (call_method env waiting
            (some service)
            (some method)
            request
            response
            (some p)
            w
          ≡ some (pos 0, w'))
        × (lookup (next_id w) w'.requests ≡ some p)
        × (w'.events ≡ w.events)
  call_sync_refused body e a c =
      let locked =
        set_ctrl p (RpcController.lock ((entered p response w).ctrls p)) (entered p response w) in
      let sends = send_packet_refused env request_of request_of-IsMeta request body locked c a in
      (
        set_ctrl p (RpcController.unlock (locked.ctrls p)) locked,
        by_sync env waiting service method request response p w o e (
              call_sync_refused_lem env waiting request_of request p (entered p response w) locked
                sends)
            ∙ ap some (give_up_zero (next_id w) p _),
        lookup-entered env waiting service method request response p w o,
        refl,
      )

  -- An ordinary call without a callback whose packet fits and is sent returns 0 however its wait
  -- ends, timeout included, and what the loop has left of its request stays in the table.
  pub call_sync_sent :
      (body : List ℕ)
      → (w.ctrls p).callback ≡ none
      → Accepts env
      → Carried env request_of request_of-IsMeta request body
      → (b : IoBufImp) × (w' : World) × (call_method env waiting
            (some service)
            (some method)
            request
            response
            (some p)
            w
          ≡ some (pos 0, w'))
        × (contents b ≡ wire env.mp request_of body)
        × (w'.requests
            ≡ (waiting.meanwhile (
                emit (sent b) (
                  set_ctrl p
                    (RpcController.lock ((entered p response w).ctrls p))
                    (entered p response w)))).requests)
  call_sync_sent body e a c =
      let locked =
        set_ctrl p (RpcController.lock ((entered p response w).ctrls p)) (entered p response w) in
      let (b, sends, held) =
        send_packet_accepted env request_of request_of-IsMeta request body locked c a in
      (
        b,
        _,
        by_sync env waiting service method request response p w o e (
              call_sync_sent_lem env waiting request_of request p (entered p response w)
                (emit (sent b) locked) sends)
            ∙ ap some (give_up_zero (next_id w) p _),
        held,
        refl,
      )
