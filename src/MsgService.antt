-- ===== src/MsgService.antt =====
-- The service "msg" that the repository's client and server use: test/MsgService.cpp, a user of the
-- library that implements include/RpcService.h.
--
-- An object is its bytes, not its address, and `none` in place of one is null. Memory is found for
-- every object that is made. The outer `none` is undefined behaviour: a place behind the table, a
-- `strcpy` past the end of a text, or a null controller that is written to.
pub mod Echoing
pub mod Methods
mod Tests
use sdpf.Prelude.{
  ℕ, zero, suc, ◌+◌, ◌-◌, Bool, true, false, ◌||◌, Option, none, some, List, [], ◌∷◌, ◌++◌, length,
  replicate, overwrite, ltb, leb, ℤ, pos, negsuc, neg, is_zero, is_negative, if◌then◌else◌, ◌>>=◌,
}
use sdpf.Dispatcher.{c_str, text_size}
use sdpf.Dispatcher.Messages.{Msg, MsgNotify, has_zero}
use sdpf.RpcController.{RpcControllerImp}
use sdpf.RpcController
use sdpf.RpcChannel.Server.{starts_with}

-- A `RpcMessage*`, with the class that `dynamic_cast` finds.
pub data RpcMessage : Type 0 where
  echo_message : Msg → RpcMessage
  notify_message : MsgNotify → RpcMessage

-- `memset` to zero.
abbrev pub zeroed : Msg
zeroed = record { log_id = pos 0; msg = replicate text_size 0 }

abbrev pub notify_new : Option RpcMessage
notify_new = some (notify_message zeroed)

abbrev pub test_new : Option RpcMessage
test_new = none

abbrev pub echo_new : Option RpcMessage
echo_new = some (echo_message zeroed)

-- What a handler gives back: its status, and the response as it has become.
abbrev pub Handled : Type 0
Handled = Option (ℤ × Option RpcMessage)

abbrev pub test : Option RpcMessage → Option RpcMessage → Handled
test request response = some (pos 0, response)

-- `strcpy` of a text to the start of an array.
unfoldable pub strcpy : List ℕ → List ℕ → Option (List ℕ)
strcpy to from =
    if has_zero from
    then if ltb (length (c_str from)) (length to)
      then some (overwrite to 0 (c_str from ++ (0 ∷ [])))
      else none
    else none

unfoldable pub echo : Option RpcMessage → Option RpcMessage → Handled
echo (some (echo_message req)) (some (echo_message rsp)) = do
  text ← strcpy rsp.msg req.msg
  some (pos 0, some (echo_message (record { log_id = req.log_id; msg = text })))
echo request response = some (neg 1, response)

-- The place of a method in the table; a handler is null or not.
pub record SvcMethod : Type 0 where
  pub name : List ℕ
  pub new_request : Option RpcMessage
  pub new_response : Option RpcMessage
  pub handler : Option (Option RpcMessage → Option RpcMessage → Handled)

abbrev pub notify_name : List ℕ
notify_name = b'n' ∷ b'o' ∷ b't' ∷ b'i' ∷ b'f' ∷ b'y' ∷ []

abbrev pub test_name : List ℕ
test_name = b't' ∷ b'e' ∷ b's' ∷ b't' ∷ []

abbrev pub echo_name : List ℕ
echo_name = b'e' ∷ b'c' ∷ b'h' ∷ b'o' ∷ []

-- `_Methods`. A constructor of the table that is null makes a null object.
unfoldable pub methods : List SvcMethod
methods =
    record { name = notify_name; new_request = notify_new; new_response = none; handler = none }
    ∷ record {
      name = test_name;
      new_request = test_new;
      new_response = test_new;
      handler = some test;
    }
    ∷ record {
      name = echo_name;
      new_request = echo_new;
      new_response = echo_new;
      handler = some echo;
    }
    ∷ []

abbrev pub method_count : ℕ
method_count = 3

-- "msg"
abbrev pub service_name : List ℕ
service_name = b'm' ∷ b's' ∷ b'g' ∷ []

-- The first method of the table, from place `i` on, with whose name the one asked for begins.
unfoldable pub find_from : ℕ → List SvcMethod → List ℕ → ℤ
find_from i [] method = neg 2
find_from i (m ∷ ms) method =
    if starts_with m.name method then pos i else find_from (i + 1) ms method

-- `none` is a null name.
unfoldable pub find_method : Option (List ℕ) → ℤ
find_method none = neg 1
find_method (some []) = neg 1
find_method (some (x ∷ xs)) = find_from 0 methods (x ∷ xs)

-- `_Methods[i]`
unfoldable pub method_at : List SvcMethod → ℕ → Option SvcMethod
method_at [] i = none
method_at (m ∷ ms) zero = some m
method_at (m ∷ ms) (suc i) = method_at ms i

-- `method_id < 0 || method_id > _method_count`
unfoldable pub is_outside : ℤ → Bool
is_outside (pos n) = ltb method_count n
is_outside (negsuc n) = true

abbrev pub place : ℤ → ℕ
place (pos n) = n
place (negsuc n) = 0

unfoldable pub new_request : ℤ → Option (Option RpcMessage)
new_request method_id =
    if is_outside method_id
    then some none
    else method_at methods (place method_id) >>= λ m. some m.new_request

unfoldable pub new_response : ℤ → Option (Option RpcMessage)
new_response method_id =
    if is_outside method_id
    then some none
    else method_at methods (place method_id) >>= λ m. some m.new_response

-- What a call leaves: the response, the controller, and the callback that was run, if one was.
pub record Call : Type 0 where
  pub response : Option RpcMessage
  pub ctrl : Option RpcControllerImp
  pub ran : Option ℕ

-- From the handler's status on.
unfoldable pub conclude : Option RpcControllerImp → ℤ × Option RpcMessage → Option Call
conclude none (ret, response) =
    if is_zero ret then some (record { response = response; ctrl = none; ran = none }) else none
conclude (some c) (ret, response) =
    let c' = if is_zero ret then c else RpcController.ec c (pos 1005) in
    some (record { response = response; ctrl = some c'; ran = c'.callback })

unfoldable pub call_method :
    ℤ → Option RpcMessage → Option RpcMessage → Option RpcControllerImp → Option Call
call_method method_id request response ctrl =
    if is_outside method_id
    then some (record { response = response; ctrl = ctrl; ran = none })
    else method_at methods (place method_id) >>= λ m. elim m.handler [
      | none ↦ some (record { response = response; ctrl = ctrl; ran = none })
      | some handle ↦ handle request response >>= conclude ctrl
    ]

-- `notify`: the message that the installed callback is called with.
abbrev pub notify : Bool → Option RpcMessage → Option (Option RpcMessage)
notify notify_cb msg = if notify_cb then some msg else none
