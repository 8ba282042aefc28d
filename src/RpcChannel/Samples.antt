-- ===== src/RpcChannel/Samples.antt =====
-- A small client and a small server, to try sdpf.RpcChannel on, and what holds of them.
use sdpf.Prelude.{
  ◌≡◌, refl, lookup, length, arith, ℕ, true, false, List, [], ◌∷◌, pos, some, none, ℤ, ◌==◌,
  if◌then◌else◌,
}
use sdpf.Dispatcher.Sample.{plain_pack}
use sdpf.Dispatcher.{meta_items, blank}
use sdpf.Dispatcher.Roundtrip.{meta_bytes}
use sdpf.RpcController.{RpcControllerImp}
use sdpf.RpcChannel.{World, Env, Service, enotify_mark, enoerror, response_meta}
use sdpf.RpcChannel.Client.{Waiting, request_meta}
use sdpf.RpcChannel.Server.{find_svc, starts_with, is_garbled}
use sdpf.RpcChannel.Calls.{IsOrdinary}
use sdpf.RpcChannel.Stages.{Serves}

abbrev pub body : List ℕ
body = 1 ∷ 2 ∷ []

-- The service "Sum" has every method.
abbrev pub sum : ℕ → Service
sum s = record {
  name = b'S' ∷ b'u' ∷ b'm' ∷ [];
  find_method = λ m. pos 0;
  new_request = λ m. some 1;
  new_response = λ m. some 2;
}

-- Every message is the two bytes above.
abbrev pub env_of : ℤ → Env
env_of sends = record {
  mp = plain_pack;
  send = λ b. sends;
  serialize = λ m n. (pos 2, body);
  deserialize = λ m bytes. pos 0;
  service = sum;
  user = λ cb w. w;
}

-- Controller 1 has a callback; controller 2 is that of a notify request.
abbrev pub controllers : ℕ → RpcControllerImp
controllers q = record {
  response = none;
  callback = if q == 1 then some 4 else none;
  code = if q == 2 then enotify_mark else pos 0;
  message = [];
  locked = false;
}

abbrev pub client : World
client = record {
  conn = some true;
  id = 6;
  requests = (3, 0) ∷ (2, 2) ∷ (1, 1) ∷ [];
  services = none;
  ctrls = controllers;
  next_ctrl = 9;
  conn_cb = false;
  close_cb = true;
  bound = true;
  installed = true;
  events = [];
}

abbrev pub server : World
server = record client { services = some (0 ∷ []); requests = [] }

abbrev pub name : List ℕ
name = b'S' ∷ []

abbrev pub calm : Waiting
calm = record { timeout = false; meanwhile = λ w. w }

pub ordinary : (p : ℕ) → IsOrdinary client name name p
ordinary p = record {
  connected = refl;
  client = refl;
  ordinary = refl;
  service_text = (omega arith, tt);
  method_text = (omega arith, tt);
}

pub free-7 : lookup 7 client.requests ≡ none
unfolding lookup
free-7 = refl

pub length-request : length (meta_bytes plain_pack (request_meta 7 name name)) ≡ 11
unfolding meta_bytes meta_items request_meta blank
length-request = refl

pub served : Serves (env_of (pos 0)) server name name body 0
unfolding find_svc starts_with is_garbled
served = record {
  services = 0 ∷ [];
  has_services = refl;
  found = refl;
  method_found = refl;
  ordinary = refl;
  reads = refl;
}

pub length-answer : length (meta_bytes plain_pack (response_meta 7 enoerror)) ≡ 9
unfolding meta_bytes meta_items response_meta blank
length-answer = refl
