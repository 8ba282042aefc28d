-- ===== src/Link/CallTests.antt =====
-- The theorems about calls and notifications over sdpf.Link, at a small client and a small server.
use sdpf.Prelude.{lookup, ℕ, ◌≡◌, refl, none, some, List, [], ◌∷◌, length, arith, pos}
use sdpf.Dispatcher.Sample.{plain_pack}
use sdpf.Link.Calling.{Exchanged, call_method-Exchanged}
use sdpf.RpcChannel.Samples.{
  body, env_of, client, server, name, calm, ordinary, free-7, controllers, length-request, served,
  length-answer,
}
use sdpf.Link.Refusing.{TurnedDown, call_method-TurnedDown}
use sdpf.RpcChannel.Calls.{IsOrdinary}
use sdpf.RpcChannel.Serving.{no_service}
use sdpf.Link.Notifying.{Subscribed, Notified, notify-Notified}
use sdpf.Link.Subscribing.{CanSubscribe, Subscribing, call_method-Subscribing}
use sdpf.RpcChannel
use sdpf.RpcChannel.{enoservice, enoerror, response_meta, method_notify}
use sdpf.RpcChannel.Client.{request_meta, has_notify}
use sdpf.RpcChannel.Server.{find_svc, find_notify, starts_with}
use sdpf.Dispatcher.{meta_items, blank}
use sdpf.Dispatcher.Roundtrip.{meta_bytes}
use sdpf.Link.Samples.{uv, world, empty, idle}

call_method-Exchanged_example :
    Exchanged
      (env_of (pos 0))
      uv
      104
      1
      (pos 0)
      calm
      name
      name
      (some 5)
      (some 6)
      1
      4
      0
      body
      client
      server
      (world empty)
      (world empty)
call_method-Exchanged_example =
    call_method-Exchanged (env_of (pos 0)) uv 104 1 (pos 0) calm name name (some 5) (some 6) 1 4
      client (ordinary 1) body body 0 server (world empty) (world empty) refl free-7 (λ b. refl)
      (refl, omega arith, omega (arith, length-request)) served
      (refl, omega arith, omega (arith, length-answer)) idle idle

-- A client whose controllers all have a callback.
abbrev listener : List (ℕ × ℕ) → RpcChannel.World
listener rs = record client {
  requests = rs;
  ctrls = λ q. record (controllers q) { callback = some 4 };
}

length-news : length (meta_bytes plain_pack (response_meta 2 enoerror)) ≡ 9
unfolding meta_bytes meta_items response_meta blank
length-news = refl

listening :
    Subscribed
      (env_of (pos 0))
      0
      2
      2
      4
      (record server { requests = (2, 0) ∷ [] })
      (listener ((2, 2) ∷ []))
      (world empty)
unfolding lookup find_notify
listening = record {
  small = omega arith;
  services = 0 ∷ [];
  online = refl;
  has_services = refl;
  registered = refl;
  waits = refl;
  marked = refl;
  callback = refl;
  idle = idle;
}

notify-Notified_example :
    Notified
      (env_of (pos 0))
      uv
      104
      1
      (pos 0)
      (λ b. refl)
      0
      2
      2
      4
      9
      (record server { requests = (2, 0) ∷ [] })
      (listener ((2, 2) ∷ []))
      (world empty)
notify-Notified_example =
    notify-Notified (env_of (pos 0)) uv 104 1 (pos 0) (λ b. refl) 0 2 2 4 9 body
      (record server { requests = (2, 0) ∷ [] }) (listener ((2, 2) ∷ [])) (world empty) listening
      (λ u. refl) (refl, omega arith, omega (arith, length-news))

can : CanSubscribe (env_of (pos 0)) name none 0 1 4 server (listener []) (world empty) (world empty)
unfolding find_svc starts_with find_notify has_notify
can = record {
  text = (omega arith, tt);
  connected = refl;
  client = refl;
  callback = refl;
  alone = refl;
  services = 0 ∷ [];
  online = refl;
  has_services = refl;
  found = refl;
  has_method = refl;
  unasked = refl;
  client_idle = idle;
  server_idle = idle;
}

length-subscription : length (meta_bytes plain_pack (request_meta 7 name method_notify)) ≡ 16
unfolding meta_bytes meta_items request_meta blank
length-subscription = refl

call_method-Subscribing_example :
    Subscribing
      (env_of (pos 0))
      uv
      104
      1
      (pos 0)
      calm
      name
      none
      0
      1
      4
      server
      (listener [])
      (world empty)
      (world empty)
call_method-Subscribing_example =
    call_method-Subscribing (env_of (pos 0)) uv 104 1 (pos 0) calm name none 0 1 4 server
      (listener []) (world empty) (world empty) can (λ b. refl)
      (omega (arith, length-subscription), refl)

-- A service that the server does not have.
abbrev unknown : List ℕ
unknown = b'X' ∷ []

asks : IsOrdinary client unknown name 1
asks = record {
  connected = refl;
  client = refl;
  ordinary = refl;
  service_text = (omega arith, tt);
  method_text = (omega arith, tt);
}

length-asked : length (meta_bytes plain_pack (request_meta 7 unknown name)) ≡ 11
unfolding meta_bytes meta_items request_meta blank
length-asked = refl

length-refusal : length (meta_bytes plain_pack (response_meta 7 enoservice)) ≡ 9
unfolding meta_bytes meta_items response_meta blank
length-refusal = refl

not_found : find_svc (env_of (pos 0)).service unknown (0 ∷ []) ≡ none
unfolding find_svc starts_with
not_found = refl

call_method-TurnedDown_example :
    TurnedDown
      (env_of (pos 0))
      uv
      104
      1
      (pos 0)
      calm
      unknown
      name
      (some 5)
      (some 6)
      1
      4
      enoservice
      client
      server
      (world empty)
      (world empty)
call_method-TurnedDown_example =
    call_method-TurnedDown (env_of (pos 0)) uv 104 1 (pos 0) calm unknown name (some 5) (some 6) 1 4
      client asks body enoservice (0 ∷ []) server (world empty) (world empty) (no_service not_found)
      refl free-7 (λ b. refl) (refl, omega arith, omega (arith, length-asked)) refl
      (omega (arith, length-refusal), refl) idle idle
