-- ===== src/MsgService/Tests.antt =====
-- The theorems of sdpf.MsgService at the text "hi" and at its three methods.
use sdpf.Prelude.{
  ◌≡◌, refl, true, false, none, some, [], ◌∷◌, ◌++◌, replicate, length, arith, pos, Option,
}
use sdpf.Dispatcher.Sample.{plain_pack}
use sdpf.Dispatcher.Messages.{Msg, message_bytes, has_zero}
use sdpf.RpcController.{RpcControllerImp}
use sdpf.MsgService.{
  RpcMessage, SvcMethod, test, test_new, test_name, methods, method_at, find_method, new_request,
  new_response,
}
use sdpf.MsgService.Methods.{find_method_longer, find_method-Leads}
use sdpf.MsgService.Echoing.{Echoed, call_method-Echoed}

abbrev hi : Msg
hi = record { log_id = pos 5; msg = b'h' ∷ (b'i' ∷ replicate 62 0) }

abbrev ctrl : RpcControllerImp
ctrl = record { response = none; callback = some 7; code = pos 0; message = []; locked = false }

hi-has_zero : has_zero hi.msg ≡ true
unfolding has_zero
hi-has_zero = refl

call_method-Echoed_example : Echoed plain_pack hi ctrl (length (message_bytes plain_pack hi))
call_method-Echoed_example =
    call_method-Echoed plain_pack hi ctrl (length (message_bytes plain_pack hi)) (omega arith) refl
      hi-has_zero (omega arith)

abbrev test_method : SvcMethod
test_method = record {
  name = test_name;
  new_request = test_new;
  new_response = test_new;
  handler = some test;
}

test_at : method_at methods 1 ≡ some test_method
unfolding method_at methods
test_at = refl

-- "testing" is taken for "test".
find_method_longer_example : find_method (some (test_name ++ (b'i' ∷ b'n' ∷ b'g' ∷ []))) ≡ pos 1
find_method_longer_example = find_method_longer 1 test_method (b'i' ∷ b'n' ∷ b'g' ∷ []) test_at

find_method-Leads_example :
    (request : Option RpcMessage) × (response : Option RpcMessage) × (new_request
        (find_method (some (b'x' ∷ [])))
      ≡ some request)
    × (new_response (find_method (some (b'x' ∷ []))) ≡ some response)
find_method-Leads_example = find_method-Leads (some (b'x' ∷ []))
