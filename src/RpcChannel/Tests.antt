-- ===== src/RpcChannel/Tests.antt =====
-- The theorems about the client of sdpf.RpcChannel, at a small client and a small server.
use sdpf.Prelude.{
  ap, List, ◌>>=◌, ◌≡◌, refl, true, [], ◌∷◌, arith, pos, neg, some, none, lookup, insert,
}
use sdpf.IoBuf.{IoBufImp}
use sdpf.IoBuf.Invariant.{contents}
use sdpf.Dispatcher.Sample.{plain_pack}
use sdpf.Frame.Wire.{wire}
use sdpf.RpcChannel.{World, sent, woken, completed, closed}
use sdpf.RpcChannel.Client.{Waiting, call_method, process_response, request_meta, on_close}
use sdpf.RpcChannel.Calls.{call_async_refused}
use sdpf.RpcChannel.Sync.{call_sync_refused, call_sync_sent}
use sdpf.RpcChannel.Responses.{process_response_once}
use sdpf.RpcChannel.Closing.{AllFailed, on_close_client}
use sdpf.RpcChannel.{emit}
use sdpf.RpcChannel.Calls.{entered, call_async_world}
use sdpf.RpcChannel.Freshness.{IsFresh}
use sdpf.RpcChannel.Numbering.{Op, calls, step, run, run-next_id}
use sdpf.RpcChannel.Samples.{body, env_of, client, name, calm, ordinary, free-7, length-request}

waits-3 : lookup 3 client.requests ≡ some 0
unfolding lookup
waits-3 = refl

call_async_refused_example :
    (w' : World) × (call_method
        (env_of (neg 1))
        calm
        (some name)
        (some name)
        (some 5)
        (some 6)
        (some 1)
        client
      ≡ some (neg 4, w'))
    × (w'.requests ≡ client.requests)
    × (w'.events ≡ [])
call_async_refused_example =
    call_async_refused (env_of (neg 1)) calm name name (some 5) (some 6) 1 client (ordinary 1) body
      refl free-7 (λ b. refl) (refl, omega arith, omega (arith, length-request))

call_sync_refused_example :
    (w' : World) × (call_method
        (env_of (neg 1))
        calm
        (some name)
        (some name)
        (some 5)
        (some 6)
        (some 0)
        client
      ≡ some (pos 0, w'))
    × (lookup 7 w'.requests ≡ some 0)
    × (w'.events ≡ [])
call_sync_refused_example =
    call_sync_refused (env_of (neg 1)) calm name name (some 5) (some 6) 0 client (ordinary 0) body
      refl (λ b. refl) (refl, omega arith, omega (arith, length-request))

-- The wait runs out of time, and nothing has come meanwhile.
abbrev late : Waiting
late = record { timeout = true; meanwhile = λ w. w }

call_sync_sent_example :
    (b : IoBufImp) × (w' : World) × (call_method
        (env_of (pos 0))
        late
        (some name)
        (some name)
        (some 5)
        (some 6)
        (some 0)
        client
      ≡ some (pos 0, w'))
    × (contents b ≡ wire plain_pack (request_meta 7 name name) body)
    × (w'.requests ≡ insert 7 0 client.requests)
call_sync_sent_example =
    call_sync_sent (env_of (pos 0)) late name name (some 5) (some 6) 0 client (ordinary 0) body refl
      (λ b. refl) (refl, omega arith, omega (arith, length-request))

process_response_once_example :
    process_response
      (env_of (pos 0))
      3
      (neg 1)
      []
      (process_response (env_of (pos 0)) 3 (pos 0) body client)
    ≡ process_response (env_of (pos 0)) 3 (pos 0) body client
process_response_once_example =
    process_response_once (env_of (pos 0)) 3 0 client waits-3 (pos 0) (neg 1) body [] refl refl

on_close_client_example :
    ((on_close (env_of (pos 0)) client).requests ≡ [])
    × ((on_close (env_of (pos 0)) client).events ≡ woken 0 ∷ woken 2 ∷ completed 1 ∷ closed ∷ [])
    × AllFailed (on_close (env_of (pos 0)) client) client.requests
on_close_client_example = on_close_client (env_of (pos 0)) (λ cb w. refl) client refl

abbrev one_call : List Op
one_call = calls calm (some name) (some name) (some 5) (some 6) (some 1) ∷ []

the_call :
    (b : IoBufImp) × (run (env_of (pos 0)) one_call client
      ≡ some (emit (sent b) (entered 1 (some 6) client)))
unfolding run step
the_call =
    let (b, call, held) =
      call_async_world (env_of (pos 0)) calm name name (some 5) (some 6) 1 client (ordinary 1) body
        refl (λ b. refl) (refl, omega arith, omega (arith, length-request)) in
    (b, ap (λ o. (o >>= λ r. some r.1) >>= λ w. some w) call)

client-IsFresh : IsFresh 6 client
unfolding lookup
client-IsFresh = record { bounded = omega arith; above = λ k h. ground arith }

run-next_id_example : lookup 8 (insert 7 1 client.requests) ≡ none
run-next_id_example =
    run-next_id (env_of (pos 0)) (λ cb c w f. f) one_call 6 client
      (emit (sent the_call.0) (entered 1 (some 6) client)) client-IsFresh (λ c w f. f, tt)
      (omega arith) the_call.1
